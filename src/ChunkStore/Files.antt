-- ===== src/ChunkStore/Files.antt =====
-- `upsert_file` of sqlite_store.py, as a change of the whole table.
use longctx.Base.{
  ℕ, ◌≡◌, refl, true, some, inl, inr, ◌⊎◌, Option-cases, List, [], ◌∷◌, ◌++◌, arith, ◌==◌, map, any,
  find, find-In, In-any, str_eq, eq_iff, In, In-map, map-In, In-append, In-append_left,
  In-append_right, contains, Bool, Bool-cases, none, false, ap, ◌∙◌, sym,
}
use mathlib.Core.Path.{subst}
use longctx.Base.Result.{ok}
use longctx.ChunkStore.{
  ChunkStore, FileRecord, next_id, upsert_file, get_file, same_file, update_file_row,
}
use longctx.ChunkStore.Chunks.{has_file, contains-next_id}

any-append_last :
    (file_id : ℕ) (fs : List FileRecord) (f : FileRecord)
    → f.id ≡ file_id
    → any (λ g. g.id == file_id) (fs ++ f ∷ []) ≡ true
any-append_last file_id [] f e = ground arith
any-append_last file_id (g ∷ fs) f e = ground (arith, any-append_last file_id fs f e)

any-update :
    (file_id : ℕ) (file : FileRecord) (fs : List FileRecord)
    → any (λ g. g.id == file_id) fs ≡ true
    → any (λ g. g.id == file_id) (map (update_file_row file) fs) ≡ true
any-update file_id file [] h = absurd (ground arith)
any-update file_id file (g ∷ fs) h = ground (arith, any-update file_id file fs)

-- A row of another path.
abbrev pub IsOther : FileRecord → FileRecord → Type 0
IsOther file f = f.project ≡ file.project → f.rel_path ≡ file.rel_path → ⊥

module _ (file : FileRecord) where
  abbrev is_same : FileRecord → Bool
  is_same = same_file file.project file.rel_path

  is_same_paths :
      (f : FileRecord)
      → is_same f ≡ true
      → (f.project ≡ file.project) × (f.rel_path ≡ file.rel_path)
  is_same_paths f hit = (
    (eq_iff f.project file.project).0 (ground arith),
    (eq_iff f.rel_path file.rel_path).0 (ground arith),
  )

  IsOther-differs : (f : FileRecord) → IsOther file f → is_same f ≡ false
  IsOther-differs f other = elim (Bool-cases (is_same f)) [
    | inl hit ↦ let (p, r) = is_same_paths f hit in absurd (other p r)
    | inr miss ↦ miss
  ]

  differs-IsOther : (f : FileRecord) → is_same f ≡ false → IsOther file f
  differs-IsOther f miss p r = absurd (
      ground
        (arith, (eq_iff f.project file.project).1 p, (eq_iff f.rel_path file.rel_path).1 r, miss))

  update_file_row_same :
      (f : FileRecord) → is_same f ≡ true → update_file_row file f ≡ record file { id = f.id }
  update_file_row_same f hit =
      let (p, r) = is_same_paths f hit in
      let row : FileRecord = record f {
        mtime = file.mtime;
        size_bytes = file.size_bytes;
        content_hash = file.content_hash;
      } in
      let whole : row ≡ record file { id = f.id } = λ i. record {
        id = f.id;
        project = p i;
        rel_path = r i;
        mtime = file.mtime;
        size_bytes = file.size_bytes;
        content_hash = file.content_hash;
      } in
      rw hit whole

  update_file_row_other : (f : FileRecord) → is_same f ≡ false → update_file_row file f ≡ f
  update_file_row_other f miss = rw miss refl

-- The table after an upsert of `file` under `file_id`: the record is in it, the rows of other paths
-- are those that were there, and an id that was there already is that of the path.
pub record FileUpserted (st st' : ChunkStore) (file : FileRecord) (file_id : ℕ) : Type 0 where
  pub there : has_file st' file_id ≡ true
  pub stored : In (record file { id = file_id }) st'.files
  pub kept : (f : FileRecord) → In f st.files → IsOther file f → In f st'.files
  pub origin :
      (f : FileRecord)
      → In f st'.files
      → (In f st.files × IsOther file f) ⊎ (record file { id = f.id } ≡ f)
  pub owner :
      has_file st file_id ≡ true
      → (f : FileRecord) × In f st.files
        × (f.id ≡ file_id)
        × (f.project ≡ file.project)
        × (f.rel_path ≡ file.rel_path)
  pub chunks_kept : st'.chunks ≡ st.chunks
  pub projects_kept : st'.projects ≡ st.projects

updated-FileUpserted :
    (st : ChunkStore) (file f : FileRecord)
    → find (same_file file.project file.rel_path) st.files ≡ some f
    → FileUpserted st (record st { files = map (update_file_row file) st.files }) file f.id
updated-FileUpserted st file f found =
    let (m, hit) = find-In (same_file file.project file.rel_path) f st.files found in
    record {
      there =
          any-update f.id file st.files (In-any (λ g. g.id == f.id) f st.files m (ground arith));
      stored =
          subst (λ k. In k (map (update_file_row file) st.files)) (update_file_row_same file f hit)
            (map-In (update_file_row file) f st.files m);
      kept = λ g m' other.
          subst (λ k. In k (map (update_file_row file) st.files))
            (update_file_row_other file g (IsOther-differs file g other))
            (map-In (update_file_row file) g st.files m');
      origin = λ g m'.
          let (h, there, e) = In-map (update_file_row file) g st.files m' in
          elim (Bool-cases (same_file file.project file.rel_path h)) [
            | inl same ↦
                let row : record file { id = h.id } ≡ g =
                  sym (update_file_row_same file h same) ∙ e in
                inr (ap (λ (k : FileRecord). record file { id = k.id }) (sym row) ∙ row)
            | inr differs ↦
                let kept : h ≡ g = sym (update_file_row_other file h differs) ∙ e in
                inl (
                  subst (λ k. In k st.files × IsOther file k) kept
                    (there, differs-IsOther file h differs))
          ];
      owner = λ taken. let (p, r) = is_same_paths file f hit in (f, m, refl, p, r);
      chunks_kept = refl;
      projects_kept = refl;
    }

none-IsOther :
    (file : FileRecord) (fs : List FileRecord) (f : FileRecord)
    → find (same_file file.project file.rel_path) fs ≡ none
    → In f fs
    → IsOther file f
none-IsOther file [] f missing m = absurd m
none-IsOther file (g ∷ fs) f missing m =
    elim (Bool-cases (same_file file.project file.rel_path g)) [
      | inl hit ↦ absurd (ground arith)
      | inr miss ↦ elim m [
        | inl e ↦ subst (IsOther file) e (differs-IsOther file g miss)
        | inr later ↦ none-IsOther file fs f (ground arith) later
      ]
    ]

has_file_ids :
    (id : ℕ) (fs : List FileRecord) → any (λ f. f.id == id) fs ≡ contains id (map (λ f. f.id) fs)
has_file_ids id [] = refl
has_file_ids id (f ∷ fs) = ground (arith, has_file_ids id fs)

inserted-FileUpserted :
    (st : ChunkStore) (file : FileRecord)
    → find (same_file file.project file.rel_path) st.files ≡ none
    → FileUpserted st
        (record st {
          files = st.files ++ record file { id = next_id (map (λ f. f.id) st.files) } ∷ [];
        })
        file
        (next_id (map (λ f. f.id) st.files))
inserted-FileUpserted st file missing =
    let id = next_id (map (λ (f : FileRecord). f.id) st.files) in
    let row : FileRecord = record file { id = id } in
    record {
      there = any-append_last id st.files row refl;
      stored = In-append_right row st.files (row ∷ []) (inl refl);
      kept = λ f m other. In-append_left f st.files (row ∷ []) m;
      origin = λ f m. elim (In-append f st.files (row ∷ []) m) [
        | inl old ↦ inl (old, none-IsOther file st.files f missing old)
        | inr new ↦ elim new [
          | inl e ↦ inr (ap (λ (k : FileRecord). record file { id = k.id }) (sym e) ∙ e)
          | inr nowhere ↦ absurd nowhere
        ]
      ];
      owner = λ taken. absurd (
          ground (
            arith,
            has_file_ids id st.files,
            contains-next_id (map (λ (f : FileRecord). f.id) st.files),
            taken,
          ));
      chunks_kept = refl;
      projects_kept = refl;
    }

-- An upsert of a file of a known project succeeds, if the file is there already or its id is left to
-- the store. The table has the record then, under the id that is returned, beside the rows of other
-- paths as they were and no others; an id that was taken before is that of the path. Chunks and
-- projects stay.
pub upsert_file-FileUpserted :
    (st : ChunkStore) (file : FileRecord)
    → any (λ p. str_eq p.name file.project) st.projects ≡ true
    → (file.id ≡ 0)
      ⊎ (existing : FileRecord) × (get_file st file.project file.rel_path ≡ some existing)
    → (st' : ChunkStore) × (file_id : ℕ) × (upsert_file st file ≡ ok (st', file_id))
      × FileUpserted st st' file file_id
unfolding upsert_file get_file
upsert_file-FileUpserted st file known id_given =
    elim (Option-cases (find (same_file file.project file.rel_path) st.files)) [
      | inr (f, found) ↦ (
        record st { files = map (update_file_row file) st.files },
        f.id,
        rw (found, upsert_file) refl,
        updated-FileUpserted st file f found,
      )
      | inl missing ↦
          let zero_id : file.id ≡ 0 = elim id_given [
            | inl e ↦ e
            | inr (existing, found) ↦ absurd (ground arith)
          ] in
          let id = next_id (map (λ (f : FileRecord). f.id) st.files) in
          (
            record st { files = st.files ++ record file { id = id } ∷ [] },
            id,
            rw (missing, upsert_file) (rw known (ground (arith, zero_id))),
            inserted-FileUpserted st file missing,
          )
    ]
