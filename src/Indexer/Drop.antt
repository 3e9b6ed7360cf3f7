-- ===== src/Indexer/Drop.antt =====
-- indexer.py: `delete_project`, on both stores.
use longctx.Base.{
  ℕ, ◌≡◌, ◌≢◌, refl, ap, ◌∙◌, sym, String, Bool, true, not, ◌||◌, inl, inr, Bool-cases, List, [],
  ◌∷◌, ◌++◌, arith, ◌==◌, contains, map, In, In-append, any, select, In-select, select-In,
  In-order_with, str_eq, eq_iff, some, ◌<◌,
}
use longctx.Base.Result.{ok}
use longctx.ChunkStore
use longctx.ChunkStore.{
  ChunkStore, Chunk, FileRecord, get_project, get_chunks_by_file, list_files, file_ids,
}
use longctx.Embed.{MemmapEmbedStore}
use longctx.Embed.Valid.{IsValid}
use longctx.Indexer.{Externals, Stores}
use longctx.Indexer.Consistent.{IsConsistent, FreedAll, FreedAll-nil, free_chunks-FreedAll, has_row}
use longctx.Indexer.Remove.{In-get_chunks_by_file, row-below, remove-IsConsistent}
use longctx.Indexer.Manage.{free_files, delete_project}

-- `f` is a file of the project.
abbrev pub IsFileOf : ChunkStore → String → FileRecord → Type 0
IsFileOf st name f = In f st.files × (f.project ≡ name)

any-append :
    {A : Type 0} (test : A → Bool) (xs ys : List A)
    → any test (xs ++ ys) ≡ (any test xs || any test ys)
any-append test [] ys = refl
any-append test (x ∷ xs) ys = ground (arith, any-append test xs ys)

FreedAll-append :
    {V : Type 0} {s t u : MemmapEmbedStore V} (cs ds : List Chunk)
    → FreedAll s t cs
    → FreedAll t u ds
    → FreedAll s u (cs ++ ds)
FreedAll-append cs ds f g = record {
  valid = g.valid;
  num_rows_kept = g.num_rows_kept ∙ f.num_rows_kept;
  dim_kept = g.dim_kept ∙ f.dim_kept;
  validate_kept = g.validate_kept ∙ f.validate_kept;
  live_iff = λ r. ground (arith, g.live_iff r, f.live_iff r, any-append (has_row r) cs ds);
  kept = λ r l. g.kept r l ∙ f.kept r (ground (arith, g.live_iff r));
}

-- The chunks of the files, file by file.
abbrev pub chunks_of : ChunkStore → List FileRecord → List Chunk
chunks_of st [] = []
chunks_of st (f ∷ fs) = get_chunks_by_file st f.id ++ chunks_of st fs

In-chunks_of :
    (st : ChunkStore) (fs : List FileRecord) (c : Chunk)
    → In c (chunks_of st fs)
    → In c st.chunks × (f : FileRecord) × In f fs × (c.file_id ≡ f.id)
In-chunks_of st [] c m = absurd m
In-chunks_of st (f ∷ fs) c m = elim (In-append c (get_chunks_by_file st f.id) (chunks_of st fs) m) [
  | inl here ↦ let (inside, e) = In-get_chunks_by_file st f.id c here in (inside, f, inl refl, e)
  | inr later ↦ let (inside, g, m', e) = In-chunks_of st fs c later in (inside, g, inr m', e)
]

contains_id :
    (f : FileRecord) (fs : List FileRecord) → In f fs → contains f.id (map (λ g. g.id) fs) ≡ true
contains_id f [] m = absurd m
contains_id f (g ∷ fs) (inl e) =
    let same : g.id ≡ f.id = ap (λ (k : FileRecord). k.id) e in ground arith
contains_id f (g ∷ fs) (inr m) = ground (arith, contains_id f fs m)

id-contains :
    (i : ℕ) (fs : List FileRecord)
    → contains i (map (λ g. g.id) fs) ≡ true
    → (f : FileRecord) × In f fs × (f.id ≡ i)
id-contains i [] m = absurd (ground arith)
id-contains i (g ∷ fs) m = elim (Bool-cases (i == g.id)) [
  | inl here ↦ (g, inl refl, ground arith)
  | inr there ↦ let (f, m', e) = id-contains i fs (ground arith) in (f, inr m', e)
]

module _ {V : Type 0} (x : Externals V) where
  free_files-FreedAll :
      (st : ChunkStore) (s : MemmapEmbedStore V) (fs : List FileRecord)
      → IsValid s
      → ((c : Chunk) (r : ℕ) → In c st.chunks → c.embedding_row ≡ some r → r < s.state.num_rows)
      → (t : MemmapEmbedStore V) × (free_files x st s fs ≡ ok t) × FreedAll s t (chunks_of st fs)
  unfolding free_files
  free_files-FreedAll st s [] h below = (s, refl, FreedAll-nil s h)
  free_files-FreedAll st s (f ∷ fs) h below =
      let cs = get_chunks_by_file st f.id in
      let (t, run, freed) =
        free_chunks-FreedAll x s cs h
          (λ c r m e. below c r (In-get_chunks_by_file st f.id c m).0 e) in
      let (u, run', freed') =
        free_files-FreedAll st t fs freed.valid
          (λ c r m e. omega (arith, below c r m e, freed.num_rows_kept)) in
      (u, rw run run', FreedAll-append cs (chunks_of st fs) freed freed')

  In-list_files :
      (st : ChunkStore) (name : String) (f : FileRecord)
      → In f (list_files st name)
      → IsFileOf st name f
  unfolding list_files
  In-list_files st name f m =
      let (inside, same) =
        In-select (λ g. str_eq g.project name) f st.files (In-order_with _ f _ m) in
      (inside, (eq_iff f.project name).0 same)

  abbrev remaining : Stores V → String → Chunk → Bool
  remaining s name c = not (contains c.file_id (file_ids s.store name))

  -- A chunk that the cascade leaves is of no file of the project.
  remaining_apart :
      (s : Stores V) (name : String) (c : Chunk) (f : FileRecord)
      → remaining s name c ≡ true
      → IsFileOf s.store name f
      → c.file_id ≢ f.id
  unfolding file_ids
  remaining_apart s name c f r (m, p) e =
      let inside : In f (select (λ g. str_eq g.project name) s.store.files) =
        select-In (λ g. str_eq g.project name) f s.store.files m ((eq_iff f.project name).1 p) in
      ground (arith, contains_id f _ inside, ap (λ k. contains k (file_ids s.store name)) e)

  apart_remaining :
      (s : Stores V) (name : String) (c : Chunk)
      → ((f : FileRecord) → IsFileOf s.store name f → c.file_id ≢ f.id)
      → remaining s name c ≡ true
  unfolding file_ids
  apart_remaining s name c away = elim (Bool-cases (contains c.file_id (file_ids s.store name))) [
    | inr miss ↦ rw miss
    | inl hit ↦
        let (f, m, e) =
          id-contains c.file_id (select (λ g. str_eq g.project name) s.store.files) hit in
        let (inside, same) = In-select (λ g. str_eq g.project name) f s.store.files m in
        absurd (away f (inside, (eq_iff f.project name).0 same) (sym e))
  ]

  -- Deleting a project succeeds on consistent stores and leaves consistent stores. Exactly the rows
  -- of the chunks of its files stop being live, and what is still live is unchanged. The chunks that
  -- are left are those that are of no file of the project.
  pub delete_project-IsConsistent :
      (s : Stores V) (name : String)
      → IsConsistent x s
      → (s' : Stores V) × (delete_project x s name ≡ ok s')
        × IsConsistent x s'
        × FreedAll s.embed s'.embed (chunks_of s.store (list_files s.store name))
        × ((c : Chunk)
            → In c s'.store.chunks
            → In c s.store.chunks × ((f : FileRecord) → IsFileOf s.store name f → c.file_id ≢ f.id))
        × ((c : Chunk)
            → In c s.store.chunks
            → ((f : FileRecord) → IsFileOf s.store name f → c.file_id ≢ f.id)
            → In c s'.store.chunks)
  unfolding delete_project ChunkStore.delete_project
  delete_project-IsConsistent s name h =
      let files = list_files s.store name in
      let (es, run, freed) = free_files-FreedAll s.store s.embed files h.valid (row-below x s h) in
      let st = ChunkStore.delete_project s.store name in
      let stays : (c : Chunk) → In c st.chunks → In c s.store.chunks × (remaining s name c ≡ true) =
        λ c m. In-select (remaining s name) c s.store.chunks m in
      (
        record { store = st; embed = es },
        rw run refl,
        remove-IsConsistent x s h st es (chunks_of s.store files) freed (λ c m. (stays c m).0)
            (λ c d r m m' e e'.
              let (inside, rest) = stays c m in
              let (inside', f, of, at) = In-chunks_of s.store files d m' in
              remaining_apart s name c f rest (In-list_files s.store name f of)
                ((h.shared c d r inside inside' e e').0 ∙ at)),
        freed,
        (λ c m. ((stays c m).0, λ f of. remaining_apart s name c f (stays c m).1 of)),
        (λ c m away.
            select-In (remaining s name) c s.store.chunks m (apart_remaining s name c away)),
      )
