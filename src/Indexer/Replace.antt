-- ===== src/Indexer/Replace.antt =====
-- The new chunk set of a file, put in place of the old one: the rows, seen from the new table.
use longctx.Base.{
  ℕ, ◌≡◌, ◌≢◌, sym, ap, ◌∙◌, String, true, false, not, some, inl, inr, ◌⊎◌, Bool-cases, List, arith,
  ◌==◌, contains, get_elem?, In, any, any-In, In-select, All-contains,
}
use mathlib.Core.Path.{subst}
use longctx.Chunker.{Text}
use longctx.ChunkStore.{ChunkStore, Chunk, contains_str, get_chunks_by_file, delete_chunks_by_file}
use longctx.ChunkStore.Chunks.{Inserted, with_id}
use longctx.Embed.{MemmapEmbedStore}
use longctx.Embed.Valid.{Appended, live}
use longctx.Indexer.{Externals, Stores, chunk_hash, kept_row, orphans}
use longctx.Indexer.Consistent.{IsConsistent, FreedAll, has_row, has_row_eq}
use longctx.Indexer.Remove.{In-get_chunks_by_file}
use longctx.Indexer.Assign.{IsFinal, Origin, Assigned, kept_row-In}

module _ {V : Type 0} (x : Externals V) (s : Stores V) (h : IsConsistent x s) (file_id : ℕ)
    (new_hashes : List String) (t : MemmapEmbedStore V)
    (freed : FreedAll s.embed t (orphans new_hashes (get_chunks_by_file s.store file_id))) where
  In-orphans :
      (d : Chunk)
      → In d (orphans new_hashes (get_chunks_by_file s.store file_id))
      → In d s.store.chunks
        × (d.file_id ≡ file_id)
        × (contains_str d.content_hash new_hashes ≡ false)
  unfolding orphans
  In-orphans d m =
      let (m', gone) =
        In-select (λ c. not (contains_str c.content_hash new_hashes)) d
          (get_chunks_by_file s.store file_id) m in
      let (inside, here) = In-get_chunks_by_file s.store file_id d m' in
      (inside, here, ground arith)

  -- A row survives the freeing if its chunk is of another file, or of a hash of the new set.
  survives :
      (c : Chunk) (r : ℕ)
      → In c s.store.chunks
      → c.embedding_row ≡ some r
      → (c.file_id ≢ file_id) ⊎ (contains_str c.content_hash new_hashes ≡ true)
      → live t r ≡ true
  survives c r m e why =
      elim (Bool-cases
        (any (has_row r) (orphans new_hashes (get_chunks_by_file s.store file_id)))) [
          | inr miss ↦ ground (arith, freed.live_iff r, h.live_rows c r m e)
          | inl hit ↦
              let (d, m', pass) = any-In (has_row r) _ hit in
              let (inside, here, gone) = In-orphans d m' in
              let (same_file, same_hash) = h.shared c d r m inside e (has_row_eq r d pass) in
              elim why [
                | inl other ↦ absurd (other (same_file ∙ here))
                | inr among ↦ absurd (ground (arith, ap (λ k. contains_str k new_hashes) same_hash))
              ]
        ]

  module _ (u : MemmapEmbedStore V) (rows : List ℕ) (vs : List V)
      (added : Appended t u rows vs) where
    abbrev old : List Chunk
    old = get_chunks_by_file s.store file_id

    -- A row that survived is live, and holds what it held.
    survivor :
        (c : Chunk) (r : ℕ)
        → In c s.store.chunks
        → c.embedding_row ≡ some r
        → live t r ≡ true
        → (live u r ≡ true) × (get_elem? u.rows r ≡ some (x.numpy.as_float32 (x.encode c.text)))
    survivor c r m e l =
        (ground (arith, added.live_iff r), added.kept r l ∙ freed.kept r l ∙ h.content c r m e)

    -- The old chunk that a kept row comes from.
    kept_source :
        (d : Chunk) (r : ℕ)
        → IsFinal x old file_id new_hashes u.rows rows d
        → kept_row old d.content_hash ≡ some r
        → (c : Chunk) × In c s.store.chunks
          × (c.file_id ≡ file_id)
          × (c.content_hash ≡ d.content_hash)
          × (c.embedding_row ≡ some r)
          × (live t r ≡ true)
    kept_source d r f k =
        let (c, m, same, e) = kept_row-In old d.content_hash r k in
        let (inside, here) = In-get_chunks_by_file s.store file_id c m in
        (
          c,
          inside,
          here,
          same,
          e,
          survives c r inside e
              (inr (ap (λ i. contains_str i new_hashes) same ∙ f.record_of.among)),
        )

    Origin-at :
        (d : Chunk) (r : ℕ)
        → IsFinal x old file_id new_hashes u.rows rows d
        → d.embedding_row ≡ some r
        → Origin x old file_id new_hashes u.rows rows d r
    Origin-at d r f e =
        let same : f.row ≡ r = ground (arith, f.has) in
        subst (λ k. Origin x old file_id new_hashes u.rows rows d k) same f.origin

    -- A new row is not one that an old chunk had.
    new_row_apart : (c : Chunk) (r : ℕ) → live t r ≡ true → contains r rows ≡ true → ⊥
    new_row_apart c r l m =
        ground (arith, All-contains (λ k. live t k ≡ false) r rows added.fresh m)

    abbrev SameKey : Chunk → Chunk → Type 0
    SameKey c d = (c.file_id ≡ d.file_id) × (c.content_hash ≡ d.content_hash)

    other-final :
        (c d : Chunk) (r : ℕ)
        → In c s.store.chunks
        → c.file_id ≢ file_id
        → IsFinal x old file_id new_hashes u.rows rows d
        → c.embedding_row ≡ some r
        → d.embedding_row ≡ some r
        → ⊥
    other-final c d r m other f e e' = elim (Origin-at d r f e') [
      | inl k ↦
          let (o, inside, here, same, eo, l) = kept_source d r f k in
          other ((h.shared c o r m inside e eo).0 ∙ here)
      | inr (_, new, _) ↦ new_row_apart c r (survives c r m e (inl other)) new
    ]

    final-final :
        (recs final : List Chunk) (c d : Chunk) (r : ℕ)
        → Assigned x old file_id new_hashes u.rows recs final rows
        → In c final
        → In d final
        → c.embedding_row ≡ some r
        → d.embedding_row ≡ some r
        → SameKey c d
    final-final recs final c d r a m m' e e' =
        let f = a.each c m in
        let g = a.each d m' in
        let file : c.file_id ≡ d.file_id = f.record_of.of_file ∙ sym g.record_of.of_file in
        elim (Origin-at c r f e) [
          | inl k ↦
              let (o, inside, _, same, eo, l) = kept_source c r f k in
              elim (Origin-at d r g e') [
                | inl k' ↦
                    let (o', inside', _, same', eo', _) = kept_source d r g k' in
                    (file, sym same ∙ (h.shared o o' r inside inside' eo eo').1 ∙ same')
                | inr (_, new, _) ↦ absurd (new_row_apart c r l new)
              ]
          | inr (bare, new, _) ↦ elim (Origin-at d r g e') [
            | inl k' ↦
                let (o', inside', _, same', eo', l) = kept_source d r g k' in
                absurd (new_row_apart d r l new)
            | inr (bare', _, _) ↦ (file, a.apart c d r m m' e e' bare bare')
          ]
        ]

    module _ (collision_free : (a b : Text) → chunk_hash x a ≡ chunk_hash x b → a ≡ b) where
      final_row :
          (d : Chunk)
          → IsFinal x old file_id new_hashes u.rows rows d
          → (r : ℕ) → d.embedding_row ≡ some r
          → (live u r ≡ true) × (get_elem? u.rows r ≡ some (x.numpy.as_float32 (x.encode d.text)))
      final_row d f r e = elim (Origin-at d r f e) [
        | inl k ↦
            let (c, inside, here, same, ec, l) = kept_source d r f k in
            let text : c.text ≡ d.text =
              collision_free c.text d.text (sym (h.hashed c inside) ∙ same ∙ f.record_of.hash) in
            let (l', content) = survivor c r inside ec l in
            (l', content ∙ ap (λ k. some (x.numpy.as_float32 (x.encode k))) text)
        | inr (_, new, content) ↦ (ground (arith, added.live_iff r), content)
      ]

      -- The new table against the new embedding store.
      module _ (recs final : List Chunk) (st : ChunkStore)
          (a : Assigned x old file_id new_hashes u.rows recs final rows)
          (i : Inserted (delete_chunks_by_file s.store file_id) st final) where
        -- A chunk of another file, or a final record under an id.
        abbrev Kind : Chunk → Type 0
        Kind c =
            In c s.store.chunks × (c.file_id ≢ file_id)
            ⊎ (d : Chunk) × (id : ℕ) × In d final × (with_id d id ≡ c)

        kind : (c : Chunk) → In c st.chunks → Kind c
        unfolding delete_chunks_by_file
        kind c m = elim (i.origin c m) [
          | inl old_row ↦
              let (inside, other) =
                In-select (λ k. not (k.file_id == file_id)) c s.store.chunks old_row in
              inl (inside, λ e. ground arith)
          | inr new ↦ inr new
        ]

        row_facts :
            (c : Chunk) (r : ℕ)
            → In c st.chunks
            → c.embedding_row ≡ some r
            → (live u r ≡ true) × (get_elem? u.rows r ≡ some (x.numpy.as_float32 (x.encode c.text)))
        row_facts c r m e = elim (kind c m) [
          | inl (inside, other) ↦ survivor c r inside e (survives c r inside e (inl other))
          | inr (d, id, m', same) ↦
              let (l, content) =
                final_row d (a.each d m') r (ap (λ (k : Chunk). k.embedding_row) same ∙ e) in
              (l, content ∙ ap (λ (k : Chunk). some (x.numpy.as_float32 (x.encode k.text))) same)
        ]

        hash_fact : (c : Chunk) → In c st.chunks → c.content_hash ≡ chunk_hash x c.text
        hash_fact c m = elim (kind c m) [
          | inl (inside, other) ↦ h.hashed c inside
          | inr (d, id, m', same) ↦
              subst (λ (k : Chunk). k.content_hash ≡ chunk_hash x k.text) same
                (a.each d m').record_of.hash
        ]

        shared_fact :
            (c d : Chunk) (r : ℕ)
            → In c st.chunks
            → In d st.chunks
            → c.embedding_row ≡ some r
            → d.embedding_row ≡ some r
            → SameKey c d
        shared_fact c d r m m' e e' = elim (kind c m) [
          | inl (inside, other) ↦ elim (kind d m') [
            | inl (inside', other') ↦ h.shared c d r inside inside' e e'
            | inr (d', id, n, same) ↦ absurd (
                other-final c d' r inside other (a.each d' n) e
                  (ap (λ (k : Chunk). k.embedding_row) same ∙ e'))
          ]
          | inr (c', id, n, same) ↦
              let ec = ap (λ (k : Chunk). k.embedding_row) same ∙ e in
              elim (kind d m') [
                | inl (inside', other') ↦
                    absurd (other-final d c' r inside' other' (a.each c' n) e' ec)
                | inr (d', id', n', same') ↦
                    let (f, g) =
                      final-final recs final c' d' r a n n' ec
                        (ap (λ (k : Chunk). k.embedding_row) same' ∙ e') in
                    (
                      sym (ap (λ (k : Chunk). k.file_id) same)
                          ∙ f
                          ∙ ap (λ (k : Chunk). k.file_id) same',
                      sym (ap (λ (k : Chunk). k.content_hash) same)
                          ∙ g
                          ∙ ap (λ (k : Chunk). k.content_hash) same',
                    )
              ]
        ]

        pub replaced-IsConsistent : IsConsistent x (record { store = st; embed = u })
        replaced-IsConsistent = record {
          valid = added.valid;
          live_rows = λ c r m e. (row_facts c r m e).0;
          content = λ c r m e. (row_facts c r m e).1;
          hashed = hash_fact;
          shared = shared_fact;
        }
