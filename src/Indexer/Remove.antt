-- ===== src/Indexer/Remove.antt =====
-- indexer.py: `delete_file`, and what it shares with `delete_project`.
use longctx.Base.{
  ℕ, ◌≡◌, ◌≢◌, refl, ◌∙◌, String, true, not, none, some, inl, inr, ◌⊎◌, Bool-cases, Option-cases,
  ◌<◌, List, arith, ◌==◌, In, any, any-In, In-select, select-In, select, In-order_with,
  order_with-In,
}
use longctx.Base.Result.{ok}
use longctx.ChunkStore
use longctx.ChunkStore.{ChunkStore, Chunk, FileRecord, get_file, get_chunks_by_file}
use longctx.Embed.{MemmapEmbedStore}
use longctx.Embed.Valid.{live}
use longctx.Indexer.{Externals, Stores, free_chunks, delete_file}
use longctx.Indexer.Consistent.{
  IsConsistent, Updated, Updated-refl, FreedAll, free_chunks-FreedAll, has_row, has_row_eq,
}

pub In-get_chunks_by_file :
    (st : ChunkStore) (file_id : ℕ) (c : Chunk)
    → In c (get_chunks_by_file st file_id)
    → In c st.chunks × (c.file_id ≡ file_id)
unfolding get_chunks_by_file
In-get_chunks_by_file st file_id c m =
    let (inside, pass) =
      In-select (λ d. d.file_id == file_id) c st.chunks (In-order_with _ c _ m) in
    (inside, ground arith)

get_chunks_by_file-In :
    (st : ChunkStore) (file_id : ℕ) (c : Chunk)
    → In c st.chunks
    → c.file_id ≡ file_id
    → In c (get_chunks_by_file st file_id)
unfolding get_chunks_by_file
get_chunks_by_file-In st file_id c m e =
    order_with-In _ c _ (select-In (λ d. d.file_id == file_id) c st.chunks m (ground arith))

module _ {V : Type 0} (x : Externals V) (s : Stores V) (h : IsConsistent x s) where
  -- A row that a stored chunk names was handed out.
  pub row-below :
      (c : Chunk) (r : ℕ)
      → In c s.store.chunks
      → c.embedding_row ≡ some r
      → r < s.embed.state.num_rows
  row-below c r m e = ground (arith, h.live_rows c r m e)

  module _ (st : ChunkStore) (es : MemmapEmbedStore V) (cs : List Chunk)
      (f : FreedAll s.embed es cs) (sub : (c : Chunk) → In c st.chunks → In c s.store.chunks)
      (apart : (c d : Chunk) (r : ℕ)
        → In c st.chunks
        → In d cs
        → c.embedding_row ≡ some r
        → d.embedding_row ≢ some r) where
    still_live : (c : Chunk) (r : ℕ) → In c st.chunks → c.embedding_row ≡ some r → live es r ≡ true
    still_live c r m e = elim (Bool-cases (any (has_row r) cs)) [
      | inl hit ↦
          let (d, m', pass) = any-In (has_row r) cs hit in
          absurd (apart c d r m m' e (has_row_eq r d pass))
      | inr miss ↦ ground (arith, f.live_iff r, h.live_rows c r (sub c m) e)
    ]

    -- Chunks may go, if rows are freed that no remaining chunk names.
    pub remove-IsConsistent : IsConsistent x (record { store = st; embed = es })
    remove-IsConsistent = record {
      valid = f.valid;
      live_rows = still_live;
      content = λ c r m e. f.kept r (still_live c r m e) ∙ h.content c r (sub c m) e;
      hashed = λ c m. h.hashed c (sub c m);
      shared = λ c d r m m' e e'. h.shared c d r (sub c m) (sub d m') e e';
    }

  -- Dropping all chunks of one file, with their rows.
  pub free_file-IsConsistent :
      (st : ChunkStore) (file_id : ℕ)
      → st.chunks ≡ select (λ c. not (c.file_id == file_id)) s.store.chunks
      → (es : MemmapEmbedStore V) × (free_chunks x s.embed (get_chunks_by_file s.store file_id)
          ≡ ok es)
        × FreedAll s.embed es (get_chunks_by_file s.store file_id)
        × IsConsistent x (record { store = st; embed = es })
  free_file-IsConsistent st file_id e =
      let cs = get_chunks_by_file s.store file_id in
      let (es, run, freed) =
        free_chunks-FreedAll x s.embed cs h.valid
          (λ c r m q. row-below c r (In-get_chunks_by_file s.store file_id c m).0 q) in
      let other = λ (c : Chunk). not (c.file_id == file_id) in
      let stays : (c : Chunk) → In c st.chunks → In c s.store.chunks × (other c ≡ true) =
        λ c m. In-select other c s.store.chunks (rw e at m) in
      (
        es,
        run,
        freed,
        remove-IsConsistent st es cs freed (λ c m. (stays c m).0)
            (λ c d r m m' q q'.
              let (kept, away) = stays c m in
              let (old, here) = In-get_chunks_by_file s.store file_id d m' in
              let same = (h.shared c d r kept old q q').0 in ground arith),
      )

  -- Deleting a file succeeds on consistent stores and leaves consistent stores; projects, and width
  -- and mode of the embedding store, stay. An unknown file
  -- changes nothing. For a known one, exactly the rows of its chunks stop being live, every row that
  -- is still live is unchanged, and no chunk of the file is left.
  pub delete_file-Updated :
      (project rel_path : String)
      → (s' : Stores V) × (delete_file x s project rel_path ≡ ok s')
        × Updated x s s'
        × ((get_file s.store project rel_path ≡ none) × (s' ≡ s)
            ⊎ (rec : FileRecord) × (get_file s.store project rel_path ≡ some rec)
              × FreedAll s.embed s'.embed (get_chunks_by_file s.store rec.id)
              × ((c : Chunk) → In c s'.store.chunks → c.file_id ≢ rec.id))
  unfolding delete_file ChunkStore.delete_file
  delete_file-Updated project rel_path = elim (Option-cases (get_file s.store project rel_path)) [
    | inl missing ↦ (s, rw (missing, delete_file) refl, Updated-refl x s h, inl (missing, refl))
    | inr (rec, found) ↦
        let st = ChunkStore.delete_file s.store rec.id in
        let (es, run, freed, consistent) = free_file-IsConsistent st rec.id refl in
        (
          record { store = st; embed = es },
          rw (found, delete_file) (rw run refl),
          record {
            consistent = consistent;
            projects_kept = refl;
            dim_kept = freed.dim_kept;
            validate_kept = freed.validate_kept;
          },
          inr (
            rec,
            found,
            freed,
            λ c m e.
                let (_, other) = In-select (λ d. not (d.file_id == rec.id)) c s.store.chunks m in
                ground arith,
          ),
        )
  ]
