-- ===== src/Indexer/Scan.antt =====
-- indexer.py: `full_scan` on consistent stores.
use longctx.Base.{
  ℕ, ◌+◌, ◌≡◌, refl, ap, ◌∙◌, String, Bool, true, not, ◌&&◌, Option, none, some, inl, inr,
  Bool-cases, List, [], ◌∷◌, ◌++◌, map, if◌then◌else◌, arith, length, any, In-any, find-In, str_eq,
  eq_iff,
}
use longctx.Base.Result.{ok}
use longctx.Chunker.Sentence.{Fits}
use longctx.ChunkStore.{ChunkStore, Project, get_project, upsert_project}
use longctx.Indexer.{Externals, Indexer, Stores}
use longctx.Indexer.Consistent.{IsConsistent, Updated, Updated-refl, Updated-trans}
use longctx.Indexer.Swap.{Reliable, Reliable-Updated, same_chunks-IsConsistent}
use longctx.Indexer.Index.{index_file-Updated}
use longctx.Indexer.Manage.{
  Candidate, Counts, no_counts, count, assert_embedder_consistent, index_candidate, scan_loop,
  full_scan,
}

abbrev pub known : ChunkStore → String → Bool
known st name = any (λ p. str_eq p.name name) st.projects

-- Files that were indexed and files that were skipped.
abbrev pub seen : Counts → ℕ
seen n = n.n_files + n.n_files_skipped

seen-count : (n : Counts) (res : Option (ℕ × ℕ × ℕ)) → seen (count n res) ≡ seen n + 1
seen-count n none = omega arith
seen-count n (some (total, new, reused)) = omega arith

-- No other project has the root of this one.
abbrev pub sole_root : ChunkStore → Project → Bool
sole_root st project = not (
    any (λ p. not (str_eq p.name project.name) && str_eq p.root_path project.root_path) st.projects)

upsert_project-chunks :
    (st : ChunkStore) (project : Project)
    → sole_root st project ≡ true
    → (st' : ChunkStore) × (upsert_project st project ≡ ok st') × (st'.chunks ≡ st.chunks)
unfolding upsert_project
upsert_project-chunks st project sole = elim (Bool-cases (known st project.name)) [
  | inl old ↦ (
    record st {
      projects = map (λ p. if str_eq p.name project.name then project else p) st.projects;
    },
    rw (sole, old) refl,
    refl,
  )
  | inr new ↦ (record st { projects = st.projects ++ project ∷ [] }, rw (sole, new) refl, refl)
]

-- The project that is found is known under its own name.
pub get_project-known_name :
    (st : ChunkStore) (name : String) (proj : Project)
    → get_project st name ≡ some proj
    → known st proj.name ≡ true
unfolding get_project
get_project-known_name st name proj found =
    let (m, named) = find-In (λ p. str_eq p.name name) proj st.projects found in
    In-any (λ p. str_eq p.name proj.name) proj st.projects m ((eq_iff proj.name proj.name).1 refl)

module _ {V : Type 0} (x : Externals V) (self : Indexer) (plain : self.tokenizer ≡ none)
    (fits : Fits self.chunker) where
  pub index_candidate-Updated :
      (s : Stores V) (name : String) (c : Candidate)
      → IsConsistent x s
      → Reliable x s
      → known s.store name ≡ true
      → (s' : Stores V) × (res : Option (ℕ × ℕ × ℕ)) × (index_candidate x self s name c
          ≡ ok (s', res))
        × Updated x s s'
  unfolding index_candidate
  index_candidate-Updated s name c h k there = elim (Bool-cases c.passes) [
    | inl passes ↦
        let (s', res, run, u) =
          index_file-Updated x self s name c.rel c.file h k plain fits there in
        (s', res, rw passes run, u)
    | inr refused ↦ (s, none, rw refused refl, Updated-refl x s h)
  ]

  scan_loop-Updated :
      (s : Stores V) (name : String) (n : Counts) (cs : List Candidate)
      → IsConsistent x s
      → Reliable x s
      → known s.store name ≡ true
      → (s' : Stores V) × (n' : Counts) × (scan_loop x self s name n cs ≡ ok (s', n'))
        × Updated x s s'
        × (seen n' ≡ seen n + length cs)
  unfolding scan_loop
  scan_loop-Updated s name n [] h k there = (s, n, refl, Updated-refl x s h, omega arith)
  scan_loop-Updated s name n (c ∷ cs) h k there =
      let (t, res, run, u) = index_candidate-Updated s name c h k there in
      let (s', n', run', u', total) =
        scan_loop-Updated t name (count n res) cs u.consistent (Reliable-Updated x k u)
          (ap (any (λ p. str_eq p.name name)) u.projects_kept ∙ there) in
      (s', n', rw run run', Updated-trans x u u', omega (arith, total, seen-count n res))

  -- A full scan of a known project succeeds on consistent stores of the same embedder, whatever files
  -- the walk finds, and leaves consistent stores. Every file that it finds is counted once, as indexed
  -- or as skipped. The conditions are those of `index_file`, and that no other project has the
  -- project's root.
  pub full_scan-IsConsistent :
      (s : Stores V) (name : String) (now : ℕ) (walk : String → List Candidate) (proj : Project)
      → IsConsistent x s
      → Reliable x s
      → assert_embedder_consistent self s.store ≡ ok tt
      → get_project s.store name ≡ some proj
      → sole_root s.store proj ≡ true
      → (s' : Stores V) × (n : Counts) × (full_scan x self s name now walk ≡ ok (s', n))
        × IsConsistent x s'
        × (seen n ≡ length (walk proj.root_path))
  unfolding full_scan
  full_scan-IsConsistent s name now walk proj h k same found sole =
      let there = get_project-known_name s.store name proj found in
      let (t, n, run, u, total) =
        scan_loop-Updated s proj.name no_counts (walk proj.root_path) h k there in
      let kept : sole_root t.store proj ≡ true = rw (u.projects_kept) sole in
      let (st, upserting, chunks) =
        upsert_project-chunks t.store (record proj { last_full_scan_at = now }) kept in
      (
        record t { store = st },
        n,
        rw (same, found) (rw (run, upserting) refl),
        same_chunks-IsConsistent x t st chunks u.consistent,
        omega (arith, total),
      )
