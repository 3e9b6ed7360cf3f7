-- ===== src/Indexer/Manage.antt =====
-- indexer.py: `add_project`, `full_scan`, `update_file`, `update_files`, `delete_project` and
-- `rename_file`. What the walk of a project finds is a parameter.
use longctx.Base.{
  ℕ, ◌+◌, String, Bool, true, false, not, Option, none, some, List, [], ◌∷◌, str_eq, if◌then◌else◌,
}
use longctx.Base.Result.{
  Result, ok, raise, file_not_found, forbidden_project, embedder_mismatch, key_error, ◌>>=◌, ◌>>◌,
  require,
}
use longctx.ChunkStore.{
  ChunkStore, FileRecord, Project, contains_str, get_project, upsert_project, get_file,
  get_chunks_by_file, list_projects, list_files,
}
use longctx.ChunkStore
use longctx.Embed.{MemmapEmbedStore}
use longctx.Indexer.{Externals, Indexer, Stores, DiskFile, free_chunks, delete_file, index_file}

-- A file that a scan comes by: its path below the root, whether the filter chain passes it, and what
-- is on disk.
pub record Candidate : Type 0 where
  pub rel : String
  pub passes : Bool
  pub file : DiskFile

-- The counters of `ScanResult` and `UpdateResult`.
pub record Counts : Type 0 where
  pub n_files : ℕ
  pub n_chunks_total : ℕ
  pub n_chunks_new : ℕ
  pub n_chunks_reused : ℕ
  pub n_files_skipped : ℕ

abbrev pub no_counts : Counts
no_counts = record {
  n_files = 0;
  n_chunks_total = 0;
  n_chunks_new = 0;
  n_chunks_reused = 0;
  n_files_skipped = 0;
}

-- The effect of one result of `_index_file` on the counters.
abbrev pub count : Counts → Option (ℕ × ℕ × ℕ) → Counts
count n none = record n { n_files_skipped = n.n_files_skipped + 1 }
count n (some (total, new, reused)) = record n {
  n_files = n.n_files + 1;
  n_chunks_total = n.n_chunks_total + total;
  n_chunks_new = n.n_chunks_new + new;
  n_chunks_reused = n.n_chunks_reused + reused;
}

-- The digest that `_assert_embedder_consistent` looks at: that of the first chunk of the first file
-- that has one.
unfoldable pub first_sha_of_files : ChunkStore → List FileRecord → Option String
first_sha_of_files st [] = none
first_sha_of_files st (f ∷ fs) =
    let rest = first_sha_of_files st fs in
    elim (get_chunks_by_file st f.id) [ [] ↦ rest | c ∷ _ ↦ some c.embedder_sha256 ]

unfoldable pub first_sha : ChunkStore → List Project → Option String
unfolding first_sha_of_files
first_sha st [] = none
first_sha st (p ∷ ps) =
    let rest = first_sha st ps in
    elim (first_sha_of_files st (list_files st p.name)) [ none ↦ rest | some sha ↦ some sha ]

unfoldable pub assert_embedder_consistent : Indexer → ChunkStore → Result (Unit {0})
unfolding first_sha
assert_embedder_consistent self st = elim (first_sha st (list_projects st)) [
  | none ↦ ok tt
  | some sha ↦ require (str_eq sha self.embedder_sha256) embedder_mismatch
]

module _ {V : Type 0} (x : Externals V) where
  -- The loops of `delete_project` over the files of the project.
  unfoldable pub free_files :
      ChunkStore → MemmapEmbedStore V → List FileRecord → Result (MemmapEmbedStore V)
  free_files st es [] = ok es
  free_files st es (f ∷ fs) = do
    es' ← free_chunks x es (get_chunks_by_file st f.id)
    free_files st es' fs

  unfoldable pub delete_project : Stores V → String → Result (Stores V)
  delete_project s name = do
    es ← free_files s.store s.embed (list_files s.store name)
    ok (record { store = ChunkStore.delete_project s.store name; embed = es })

  -- `add_project`, for a resolved root: its base name, and whether it is a directory.
  unfoldable pub add_project :
      Indexer → Stores V → String → String → String → Bool → Result (Stores V × Project)
  add_project self s name root base is_dir = do
    require (not (contains_str base self.forbidden_dirs)) forbidden_project
    require is_dir file_not_found
    let existing = get_project s.store name
    let project : Project = record {
      name = name;
      root_path = root;
      last_full_scan_at = elim existing [ none ↦ 0 | some p ↦ p.last_full_scan_at ];
      session_id = elim existing [ none ↦ none | some p ↦ p.session_id ];
    }
    st ← upsert_project s.store project
    ok (record s { store = st }, project)

  -- A candidate that the filter chain refuses counts as skipped, as one that cannot be read does.
  unfoldable pub index_candidate :
      Indexer → Stores V → String → Candidate → Result (Stores V × Option (ℕ × ℕ × ℕ))
  index_candidate self s name c =
      if c.passes then index_file x self s name c.rel c.file else ok (s, none)

  -- The loop of `full_scan`, with what was counted so far.
  unfoldable pub scan_loop :
      Indexer → Stores V → String → Counts → List Candidate → Result (Stores V × Counts)
  unfolding index_candidate
  scan_loop self s name n [] = ok (s, n)
  scan_loop self s name n (c ∷ cs) = do
    (s', res) ← index_candidate self s name c
    scan_loop self s' name (count n res) cs

  -- `full_scan`, at the time `now`, over the files that `_walk` yields below the project's root.
  unfoldable pub full_scan :
      Indexer → Stores V → String → ℕ → (String → List Candidate) → Result (Stores V × Counts)
  full_scan self s name now walk = do
    assert_embedder_consistent self s.store
    elim (get_project s.store name) [
      | none ↦ raise key_error
      | some proj ↦ do
        (s', n) ← scan_loop self s proj.name no_counts (walk proj.root_path)
        st ← upsert_project s'.store (record proj { last_full_scan_at = now })
        ok (record s' { store = st }, n)
    ]

  unfoldable pub update_file : Indexer → Stores V → String → Candidate → Result (Stores V × Counts)
  update_file self s name c = do
    assert_embedder_consistent self s.store
    elim (get_project s.store name) [
      | none ↦ raise key_error
      | some proj ↦ do (s', res) ← index_candidate self s proj.name c; ok (s', count no_counts res)
    ]

  abbrev add_counts : Counts → Counts → Counts
  add_counts n m = record {
    n_files = n.n_files + m.n_files;
    n_chunks_total = n.n_chunks_total + m.n_chunks_total;
    n_chunks_new = n.n_chunks_new + m.n_chunks_new;
    n_chunks_reused = n.n_chunks_reused + m.n_chunks_reused;
    n_files_skipped = n.n_files_skipped + m.n_files_skipped;
  }

  -- `update_files`, with the sums so far.
  unfoldable pub update_files :
      Indexer → Stores V → String → Counts → List Candidate → Result (Stores V × Counts)
  unfolding update_file
  update_files self s name n [] = ok (s, n)
  update_files self s name n (c ∷ cs) = do
    (s', m) ← update_file self s name c
    update_files self s' name (add_counts n m) cs

  -- `rename_file`: whether the cheap path was taken. The destination is given with the verdict of
  -- the filter chain, and as it is on disk; what is no file there has no bytes to read.
  unfoldable pub rename_file :
      Indexer → Stores V → String → String → String → Bool → DiskFile → Result (Stores V × Bool)
  rename_file self s project old_rel_path new_rel_path passes file =
      elim (get_project s.store project) [
        | none ↦ ok (s, false)
        | some proj ↦ elim (get_file s.store project old_rel_path) [
          | none ↦ ok (s, false)
          | some existing ↦
              if not passes
              then (do s' ← delete_file x s project old_rel_path; ok (s', false))
              else let mtime : ℕ = elim file.stat [ none ↦ existing.mtime | some (m, _) ↦ m ] in
                elim (ChunkStore.rename_file s.store existing.id new_rel_path mtime) [
                  | ok st ↦ ok (record s { store = st }, true)
                  | raise _ ↦ do
                    s' ← delete_file x s project old_rel_path
                    (s'', _) ← index_file x self s' project new_rel_path file
                    ok (s'', false)
                ]
        ]
      ]
