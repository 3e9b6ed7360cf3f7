-- ===== src/ChunkStore/Lookup.antt =====
-- What the writes of the store leave for `get_file`.
use longctx.Base.{
  ℕ, ◌≡◌, refl, ap, ◌∙◌, sym, Bool, true, not, ◌||◌, none, some, inl, inr, Bool-cases, Option-cases,
  List, [], ◌∷◌, ◌++◌, arith, ◌==◌, map, any, find, str_eq, eq_iff, if◌then◌else◌, find-In,
}
use longctx.Base.Result.{ok, >>=-eq-ok, ok_injective, require-eq-ok, integrity_error}
use longctx.ChunkStore.{
  ChunkStore, Chunk, FileRecord, next_id, get_file, same_file, update_file_row, upsert_file,
  upsert_chunk, upsert_rows, upsert_chunks,
}

module _ (file : FileRecord) where
  abbrev same : FileRecord → Bool
  same = same_file file.project file.rel_path

  same-update : (f : FileRecord) → same (update_file_row file f) ≡ same f
  same-update f = elim (Bool-cases (same f)) [
    | inl hit ↦ rw hit (ground arith)
    | inr miss ↦ rw miss (ground arith)
  ]

  find_hit : (f : FileRecord) (fs : List FileRecord) → same f ≡ true → find same (f ∷ fs) ≡ some f
  find_hit f fs h = rw h refl

  update-hash :
      (f : FileRecord) → same f ≡ true → (update_file_row file f).content_hash ≡ file.content_hash
  update-hash f h = rw h refl

  update-id : (f : FileRecord) → (update_file_row file f).id ≡ f.id
  update-id f = elim (Bool-cases (same f)) [ inl hit ↦ rw hit refl | inr miss ↦ rw miss refl ]

  find-update :
      (fs : List FileRecord) (f : FileRecord)
      → find same fs ≡ some f
      → find same (map (update_file_row file) fs) ≡ some (update_file_row file f)
  find-update [] f h = absurd (ground arith)
  find-update (g ∷ fs) f h = elim (Bool-cases (same g)) [
    | inl hit ↦
        let e : g ≡ f = ground arith in
        find_hit (update_file_row file g) _ (same-update g ∙ hit)
        ∙ ap (λ k. some (update_file_row file k)) e
    | inr miss ↦ rw (same-update g, miss) (find-update fs f (ground arith))
  ]

  find-last :
      (fs : List FileRecord) (f : FileRecord)
      → find same fs ≡ none
      → same f ≡ true
      → find same (fs ++ f ∷ []) ≡ some f
  find-last [] f h hit = rw hit refl
  find-last (g ∷ fs) f h hit = elim (Bool-cases (same g)) [
    | inl here ↦ absurd (ground arith)
    | inr miss ↦ rw miss (find-last fs f (ground arith) hit)
  ]

  same_self : same file ≡ true
  same_self = ground (
    arith,
    (eq_iff file.project file.project).1 refl,
    (eq_iff file.rel_path file.rel_path).1 refl,
  )

  -- After an upsert that succeeds, the file is found, under the id that was returned and with the
  -- content hash that was given.
  pub get_file-upsert_file :
      (st st' : ChunkStore) (file_id : ℕ)
      → upsert_file st file ≡ ok (st', file_id)
      → (rec : FileRecord) × (get_file st' file.project file.rel_path ≡ some rec)
        × (rec.id ≡ file_id)
        × (rec.content_hash ≡ file.content_hash)
  unfolding upsert_file get_file
  get_file-upsert_file st st' file_id run = elim (Option-cases (find same st.files)) [
    | inr (f, found) ↦
        let updated = record st { files = map (update_file_row file) st.files } in
        let done : (updated, f.id) ≡ (st', file_id) =
          ok_injective _ _ (rw (found, upsert_file) at run) in
        let files : updated.files ≡ st'.files = ap (λ p. p.0.files) done in
        (
          update_file_row file f,
          rw (← files) (find-update st.files f found),
          update-id f ∙ ap (λ p. p.1) done,
          update-hash f (find-In same f st.files found).1,
        )
    | inl missing ↦
        let run' = rw (missing, upsert_file) at run in
        let (known, run2) =
          require-eq-ok (any (λ p. str_eq p.name file.project) st.projects) integrity_error _
            run' in
        let (unused, run3) =
          require-eq-ok (file.id == 0 || not (any (λ f. f.id == file.id) st.files)) integrity_error
            _ run2 in
        let id : ℕ = if file.id == 0 then next_id (map (λ f. f.id) st.files) else file.id in
        let row : FileRecord = record file { id = id } in
        let inserted = record st { files = st.files ++ row ∷ [] } in
        let done : (inserted, id) ≡ (st', file_id) = ok_injective _ _ run3 in
        let files : inserted.files ≡ st'.files = ap (λ p. p.0.files) done in
        (row, rw (← files) (find-last st.files row missing same_self), ap (λ p. p.1) done, refl)
  ]

upsert_chunk-files :
    (st st' : ChunkStore) (c : Chunk) → upsert_chunk st c ≡ ok st' → st'.files ≡ st.files
unfolding upsert_chunk
upsert_chunk-files st st' c run =
    let (there, run') =
      require-eq-ok (any (λ f. f.id == c.file_id) st.files) integrity_error _ run in
    let changed : ChunkStore =
      if c.id == 0
      then record st {
        chunks = st.chunks ++ record c { id = next_id (map (λ d. d.id) st.chunks) } ∷ [];
      }
      else if any (λ d. d.id == c.id) st.chunks
      then record st { chunks = map (λ d. if d.id == c.id then c else d) st.chunks }
      else record st { chunks = st.chunks ++ c ∷ [] } in
    let done : changed ≡ st' = ok_injective _ _ run' in
    elim (Bool-cases (c.id == 0)) [
      | inl new ↦ ap (λ (k : ChunkStore). k.files) (sym (rw new at done))
      | inr given ↦ elim (Bool-cases (any (λ d. d.id == c.id) st.chunks)) [
        | inl old ↦ ap (λ (k : ChunkStore). k.files) (sym (rw (given, old) at done))
        | inr fresh ↦ ap (λ (k : ChunkStore). k.files) (sym (rw (given, fresh) at done))
      ]
    ]

upsert_rows-files :
    (st st' : ChunkStore) (cs : List Chunk) → upsert_rows st cs ≡ ok st' → st'.files ≡ st.files
unfolding upsert_rows
upsert_rows-files st st' [] run = ap (λ (k : ChunkStore). k.files) (sym (ok_injective _ _ run))
upsert_rows-files st st' (c ∷ cs) run =
    let (t, first, rest) = >>=-eq-ok (upsert_chunk st c) _ run in
    upsert_rows-files t st' cs rest ∙ upsert_chunk-files st t c first

-- Storing chunks leaves the table of files as it was.
pub upsert_chunks-files :
    (st st' : ChunkStore) (cs : List Chunk) → upsert_chunks st cs ≡ ok st' → st'.files ≡ st.files
unfolding upsert_chunks
upsert_chunks-files st st' [] run = ap (λ (k : ChunkStore). k.files) (sym (ok_injective _ _ run))
upsert_chunks-files st st' (c ∷ cs) run =
    let (t, first, rest) = >>=-eq-ok (upsert_rows st (c ∷ cs)) _ run in
    ap (λ (k : ChunkStore). k.files) (sym (ok_injective _ _ rest))
    ∙ upsert_rows-files st t (c ∷ cs) first
