-- ===== src/Indexer/Stored.antt =====
-- indexer.py: what `_index_file` stores of the chunks of a text.
use longctx.Base.{
  ℕ, ◌+◌, ◌≡◌, refl, ap, ◌∙◌, sym, some, inl, inr, Option-cases, List, [], ◌∷◌, map, All,
}
use mathlib.Core.Path.{subst}
use mathlib.Core.List.{append-nil}
use longctx.Base.Result.{ok, key_error, >>=-eq-ok, ok_injective, raise-neq-ok}
use longctx.Chunker
use longctx.Chunker.{Text}
use longctx.ChunkStore.{Chunk, get_chunks_by_file, delete_chunks_by_file, upsert_chunks}
use longctx.Indexer.{
  Externals, Indexer, Stores, kept_row, assign_rows, build_records_from, orphans, to_embed,
  free_chunks, line_start_offsets, replace_chunks,
}
use longctx.Embed.{append_batch}
use longctx.Indexer.InOrder.{extent, raw_extent, From, get_chunks_by_file-From, upsert_chunks-From}

module _ {V : Type 0} (x : Externals V) where
  build_records-From :
      (self : Indexer) (file_id : ℕ) (lines : List ℕ) (idx : ℕ) (raw : List Chunker.Chunk)
      → All (λ c. c.id ≡ 0) (build_records_from x self file_id lines idx raw)
        × From file_id idx (build_records_from x self file_id lines idx raw)
        × (map extent (build_records_from x self file_id lines idx raw) ≡ map raw_extent raw)
  unfolding build_records_from
  build_records-From self file_id lines idx [] = (tt, tt, refl)
  build_records-From self file_id lines idx (r ∷ raw) =
      let (new, f, same) = build_records-From self file_id lines (idx + 1) raw in
      ((refl, new), (refl, refl, f), ap (◌∷◌ (raw_extent r)) same)

abbrev IsRun : ℕ → ℕ → List Chunk → List Chunk → Type 0
IsRun file_id k recs final =
    All (λ c. c.id ≡ 0) final × From file_id k final × (map extent final ≡ map extent recs)

IsRun-cons :
    (file_id k : ℕ) (rec : Chunk) (row : ℕ) (recs tail final : List Chunk)
    → rec.id ≡ 0
    → rec.file_id ≡ file_id
    → rec.chunk_index ≡ k
    → IsRun file_id (k + 1) recs tail
    → ok (record rec { embedding_row = some row } ∷ tail) ≡ ok final
    → IsRun file_id k (rec ∷ recs) final
IsRun-cons file_id k rec row recs tail final zero_id here at (new, f, same) done =
    subst (IsRun file_id k (rec ∷ recs))
      (ok_injective (record rec { embedding_row = some row } ∷ tail) final done)
      ((zero_id, new), (here, at, f), ap (◌∷◌ (extent rec)) same)

-- The rows do not touch what a record says of the text.
assign_rows-IsRun :
    (old recs final : List Chunk) (rows : List ℕ) (file_id k : ℕ)
    → All (λ c. c.id ≡ 0) recs
    → From file_id k recs
    → assign_rows old recs rows ≡ ok final
    → IsRun file_id k recs final
unfolding assign_rows
assign_rows-IsRun old [] final rows file_id k new f run =
    subst (IsRun file_id k []) (ok_injective [] final run) (tt, tt, refl)
assign_rows-IsRun old (rec ∷ recs) final [] file_id k (zero_id, new) (here, at, rest) run =
    elim (Option-cases (kept_row old rec.content_hash)) [
      | inr (row, kept) ↦
          let (tail, first, done) =
            >>=-eq-ok (assign_rows old recs []) _ (rw (kept, assign_rows) at run) in
          IsRun-cons file_id k rec row recs tail final zero_id here at
            (assign_rows-IsRun old recs tail [] file_id (k + 1) new rest first) done
      | inl miss ↦ absurd (raise-neq-ok key_error final (rw (miss, assign_rows) at run))
    ]
assign_rows-IsRun old (rec ∷ recs) final (r ∷ rows) file_id k (zero_id, new) (here, at, rest) run =
    elim (Option-cases (kept_row old rec.content_hash)) [
      | inr (row, kept) ↦
          let (tail, first, done) =
            >>=-eq-ok (assign_rows old recs (r ∷ rows)) _ (rw (kept, assign_rows) at run) in
          IsRun-cons file_id k rec row recs tail final zero_id here at
            (assign_rows-IsRun old recs tail (r ∷ rows) file_id (k + 1) new rest first) done
      | inl miss ↦
          let (tail, first, done) =
            >>=-eq-ok (assign_rows old recs rows) _ (rw (miss, assign_rows) at run) in
          IsRun-cons file_id k rec r recs tail final zero_id here at
            (assign_rows-IsRun old recs tail rows file_id (k + 1) new rest first) done
    ]

module _ {V : Type 0} (x : Externals V) (self : Indexer) where
  -- After the new chunks were put in place, the file has the chunks of its text, in order.
  pub replace_chunks-extents :
      (s s' : Stores V) (file_id : ℕ) (text : Text) (raw : List Chunker.Chunk) (n : ℕ × ℕ × ℕ)
      → replace_chunks x self s file_id text raw ≡ ok (s', n.0, n.1, n.2)
      → map extent (get_chunks_by_file s'.store file_id) ≡ map raw_extent raw
  unfolding replace_chunks
  replace_chunks-extents s s' file_id text [] n run =
      let (es, freeing, done) =
        >>=-eq-ok (free_chunks x s.embed (get_chunks_by_file s.store file_id)) _ run in
      let st = delete_chunks_by_file s.store file_id in
      let same : st.chunks ≡ s'.store.chunks =
        ap (λ p. p.0.store.chunks)
          (ok_injective (record { store = st; embed = es }, 0, 0, 0) (s', n.0, n.1, n.2) done) in
      ap (map extent) (
        get_chunks_by_file-From s.store s'.store file_id [] (sym same ∙ sym (append-nil st.chunks))
          tt)
  replace_chunks-extents s s' file_id text (c ∷ cs) n run =
      let recs = build_records_from x self file_id (line_start_offsets text) 0 (c ∷ cs) in
      let old = get_chunks_by_file s.store file_id in
      let (es, freeing, run1) =
        >>=-eq-ok (free_chunks x s.embed (orphans (map (λ r. r.content_hash) recs) old)) _ run in
      let ((es', rows), appending, run2) =
        >>=-eq-ok (append_batch x.numpy es (map x.encode (to_embed old recs))) _ run1 in
      let (final, assigning, run3) = >>=-eq-ok (assign_rows old recs rows) _ run2 in
      let (st, storing, done) =
        >>=-eq-ok (upsert_chunks (delete_chunks_by_file s.store file_id) final) _ run3 in
      let (new, f, built) =
        build_records-From x self file_id (line_start_offsets text) 0 (c ∷ cs) in
      let (new', f', kept) = assign_rows-IsRun old recs final rows file_id 0 new f assigning in
      let (news, added, f'', stored) =
        upsert_chunks-From (delete_chunks_by_file s.store file_id) st file_id 0 final new' f'
          storing in
      let same : st.chunks ≡ s'.store.chunks =
        ap (λ p. p.0.store.chunks) (ok_injective _ (s', n.0, n.1, n.2) done) in
      ap (map extent) (get_chunks_by_file-From s.store s'.store file_id news (sym same ∙ added) f'')
      ∙ stored
      ∙ kept
      ∙ built
