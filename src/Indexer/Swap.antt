-- ===== src/Indexer/Swap.antt =====
-- indexer.py: `_index_file`, where the new chunk set takes the place of the old one.
use longctx.Base.{
  ℕ, ◌+◌, ◌-◌, ◌≡◌, refl, sym, ap, ◌∙◌, String, true, inl, inr, List, [], ◌∷◌, arith, length, map,
  All, In, eq_iff, str_eq, In-select,
}
use mathlib.Core.Path.{subst}
use longctx.Base.Result.{ok}
use longctx.Chunker
use longctx.Chunker.{Text}
use longctx.ChunkStore.{ChunkStore, Chunk, contains_str, get_chunks_by_file, delete_chunks_by_file}
use longctx.ChunkStore.Chunks.{has_file, upsert_chunks-Inserted}
use longctx.Embed.{MemmapEmbedStore, assert_normalized}
use longctx.Embed.Append.{Accepted}
use longctx.Embed.Batch.{append_batch-Appended}
use longctx.Indexer.{
  Externals, Stores, Indexer, chunk_hash, orphans, to_embed, build_records_from, line_start_offsets,
  replace_chunks,
}
use longctx.Indexer.Consistent.{IsConsistent, Updated, free_chunks-FreedAll}
use longctx.Indexer.Remove.{In-get_chunks_by_file, row-below, free_file-IsConsistent}
use longctx.Indexer.Assign.{assign_rows-Assigned}
use longctx.Indexer.Replace.{replaced-IsConsistent}

module _ {V : Type 0} (x : Externals V) where
  -- What is known of a record of `_build_records`, whatever its line numbers.
  record IsBuilt (file_id : ℕ) (c : Chunk) : Type 0 where
    pub unassigned : c.id ≡ 0
    pub of_file : c.file_id ≡ file_id
    pub hash : c.content_hash ≡ chunk_hash x c.text

  build_records-IsBuilt :
      (self : Indexer) (file_id : ℕ) (lines : List ℕ) (idx : ℕ) (raw : List Chunker.Chunk)
      (c : Chunk)
      → In c (build_records_from x self file_id lines idx raw)
      → IsBuilt file_id c
  unfolding build_records_from
  build_records-IsBuilt self file_id lines idx [] c m = absurd m
  build_records-IsBuilt self file_id lines idx (r ∷ raw) c (inl e) =
      subst (λ k. IsBuilt file_id k) e (record { unassigned = refl; of_file = refl; hash = refl })
  build_records-IsBuilt self file_id lines idx (r ∷ raw) c (inr m) =
      build_records-IsBuilt self file_id lines (idx + 1) raw c m

contains_hash :
    (c : Chunk) (recs : List Chunk)
    → In c recs
    → contains_str c.content_hash (map (λ r. r.content_hash) recs) ≡ true
contains_hash c [] m = absurd m
contains_hash c (r ∷ recs) (inl e) =
    let same : str_eq r.content_hash c.content_hash ≡ true =
      (eq_iff r.content_hash c.content_hash).1 (ap (λ (k : Chunk). k.content_hash) e) in
    rw same
contains_hash c (r ∷ recs) (inr m) = ground (arith, contains_hash c recs m)

has_file-kept :
    (st : ChunkStore) (file_id k : ℕ)
    → has_file st file_id ≡ true
    → k ≡ file_id
    → has_file (delete_chunks_by_file st file_id) k ≡ true
unfolding delete_chunks_by_file
has_file-kept st file_id k there e = rw e there

module _ {V : Type 0} (x : Externals V) where
  Accepted-kept :
      (s t : MemmapEmbedStore V) (v : V)
      → t.dim ≡ s.dim
      → t.validate ≡ s.validate
      → Accepted x.numpy s v
      → Accepted x.numpy t v
  unfolding assert_normalized
  Accepted-kept s t v d e a = record { width = a.width ∙ sym d; norm = rw e a.norm }

  All-encode :
      (s : MemmapEmbedStore V) (texts : List Text)
      → ((text : Text) → Accepted x.numpy s (x.encode text))
      → All (Accepted x.numpy s) (map x.encode texts)
  All-encode s [] h = tt
  All-encode s (text ∷ texts) h = (h text, All-encode s texts h)

  orphan-In :
      (s : Stores V) (file_id : ℕ) (new_hashes : List String) (d : Chunk)
      → In d (orphans new_hashes (get_chunks_by_file s.store file_id))
      → In d s.store.chunks
  unfolding orphans
  orphan-In s file_id new_hashes d m =
      (In-get_chunks_by_file s.store file_id d (In-select _ d _ m).0).0

  -- Consistency is about the chunks alone.
  pub same_chunks-IsConsistent :
      (s : Stores V) (st : ChunkStore)
      → st.chunks ≡ s.store.chunks
      → IsConsistent x s
      → IsConsistent x (record s { store = st })
  same_chunks-IsConsistent s st e h = record {
    valid = h.valid;
    live_rows = λ c r m q. h.live_rows c r (rw e at m) q;
    content = λ c r m q. h.content c r (rw e at m) q;
    hashed = λ c m. h.hashed c (rw e at m);
    shared = λ c d r m m' q q'. h.shared c d r (rw e at m) (rw e at m') q q';
  }

  -- What the indexer relies on: the embedder's vectors have the width of the store and pass its
  -- check, and sha256 does not send two texts to one digest.
  pub record Reliable (s : Stores V) : Type 0 where
    pub accepted : (text : Text) → Accepted x.numpy s.embed (x.encode text)
    pub collision_free : (a b : Text) → chunk_hash x a ≡ chunk_hash x b → a ≡ b

  pub Reliable-Updated : {s t : Stores V} → Reliable s → Updated x s t → Reliable t
  Reliable-Updated {s} {t} k u = record {
    accepted = λ text.
        Accepted-kept s.embed t.embed (x.encode text) u.dim_kept u.validate_kept (k.accepted text);
    collision_free = k.collision_free;
  }

  pub replace_chunks-Updated :
      (self : Indexer) (s : Stores V) (file_id : ℕ) (text : Text) (raw : List Chunker.Chunk)
      → IsConsistent x s
      → Reliable s
      → has_file s.store file_id ≡ true
      → (s' : Stores V) × (counts : ℕ × ℕ × ℕ) × (replace_chunks x self s file_id text raw
          ≡ ok (s', counts.0, counts.1, counts.2))
        × Updated x s s'
  unfolding replace_chunks delete_chunks_by_file
  replace_chunks-Updated self s file_id text [] h k there =
      let st = delete_chunks_by_file s.store file_id in
      let (es, run, freed, consistent) =
        free_file-IsConsistent x s h st file_id (unfold delete_chunks_by_file in refl) in
      (
        record { store = st; embed = es },
        (0, 0, 0),
        rw run refl,
        record {
          consistent = consistent;
          projects_kept = refl;
          dim_kept = freed.dim_kept;
          validate_kept = freed.validate_kept;
        },
      )
  replace_chunks-Updated self s file_id text (c ∷ cs) h k there =
      let recs = build_records_from x self file_id (line_start_offsets text) 0 (c ∷ cs) in
      let new_hashes = map (λ (r : Chunk). r.content_hash) recs in
      let old = get_chunks_by_file s.store file_id in
      let (t, freeing, freed) =
        free_chunks-FreedAll x s.embed (orphans new_hashes old) h.valid
          (λ d r m e. row-below x s h d r (orphan-In s file_id new_hashes d m) e) in
      let texts = to_embed old recs in
      let (u, rows, appending, added) =
        append_batch-Appended x.numpy t (map x.encode texts) freed.valid (
          All-encode t texts (λ q.
            Accepted-kept s.embed t (x.encode q) freed.dim_kept freed.validate_kept
              (k.accepted q))) in
      let (final, assigning, a) =
        assign_rows-Assigned x old file_id new_hashes u.rows recs rows
          (λ d m.
            let b = build_records-IsBuilt x self file_id (line_start_offsets text) 0 (c ∷ cs) d m in
            record {
              unassigned = b.unassigned;
              of_file = b.of_file;
              hash = b.hash;
              among = contains_hash d recs m;
            })
          added.distinct added.holds in
      let (st, storing, i) =
        upsert_chunks-Inserted (delete_chunks_by_file s.store file_id) final (λ d m.
          let p = (a.each d m).record_of in
          record {
            unassigned = p.unassigned;
            of_file = has_file-kept s.store file_id d.file_id there p.of_file;
          }) in
      (
        record { store = st; embed = u },
        (length final, length texts, length final - length texts),
        rw (freeing, appending, assigning, storing) refl,
        record {
          consistent =
              replaced-IsConsistent x s h file_id new_hashes t freed u rows _ added k.collision_free
                recs final st a i;
          projects_kept = i.projects_kept;
          dim_kept = added.dim_kept ∙ freed.dim_kept;
          validate_kept = added.validate_kept ∙ freed.validate_kept;
        },
      )
