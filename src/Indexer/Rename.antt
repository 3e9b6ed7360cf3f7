-- ===== src/Indexer/Rename.antt =====
-- `rename_file`, on each of its paths.
use longctx.Base.{
  ◌≡◌, refl, ap, ◌∙◌, String, Bool, true, false, not, none, some, inl, inr, Bool-cases,
  Option-cases, any, sym, find, find-In, In-any, str_eq, ℕ, ◌&&◌, ◌==◌,
}
use longctx.Base.Result.{ok, integrity_error, Result-cases, ok_injective, require-eq-ok}
use longctx.Chunker.Sentence.{Fits}
use longctx.ChunkStore
use longctx.ChunkStore.{ChunkStore, Project, FileRecord, same_file, get_project, get_file}
use longctx.Indexer.{Externals, Indexer, Stores, DiskFile}
use longctx.Indexer.Consistent.{IsConsistent}
use longctx.Indexer.Remove.{delete_file-Updated}
use longctx.Indexer.Swap.{Reliable, Reliable-Updated, same_chunks-IsConsistent}
use longctx.Indexer.Index.{index_file-Updated}
use longctx.Indexer.Manage.{rename_file}

rename_file-chunks :
    (st st' : ChunkStore) (file_id : ℕ) (rel : String) (mtime : ℕ)
    → ChunkStore.rename_file st file_id rel mtime ≡ ok st'
    → st'.chunks ≡ st.chunks
unfolding ChunkStore.rename_file
rename_file-chunks st st' file_id rel mtime run =
    elim (Option-cases (find (λ f. f.id == file_id) st.files)) [
      | inl missing ↦
          ap (λ (k : ChunkStore). k.chunks)
            (sym (ok_injective st st' (rw (missing, ChunkStore.rename_file) at run)))
      | inr (old, found) ↦
          let (free, done) =
            require-eq-ok
              (not (any (λ f. not (f.id == file_id) && same_file old.project rel f) st.files))
              integrity_error _ (rw (found, ChunkStore.rename_file) at run) in
          ap (λ (k : ChunkStore). k.chunks) (sym (ok_injective _ st' done))
    ]

get_project-known :
    (st : ChunkStore) (name : String) (proj : Project)
    → get_project st name ≡ some proj
    → any (λ p. str_eq p.name name) st.projects ≡ true
unfolding get_project
get_project-known st name proj found =
    let (m, same) = find-In (λ p. str_eq p.name name) proj st.projects found in
    In-any (λ p. str_eq p.name name) proj st.projects m same

module _ {V : Type 0} (x : Externals V) (self : Indexer) (plain : self.tokenizer ≡ none)
    (fits : Fits self.chunker) where
  pub rename_file-IsReady :
      (s : Stores V) (name old_rel new_rel : String) (passes : Bool) (file : DiskFile)
      → IsConsistent x s
      → Reliable x s
      → (s' : Stores V) × (cheap : Bool) × (rename_file x self s name old_rel new_rel passes file
          ≡ ok (s', cheap))
        × IsConsistent x s'
        × Reliable x s'
  unfolding rename_file
  rename_file-IsReady s name old_rel new_rel passes file h k =
      elim (Option-cases (get_project s.store name)) [
        | inl unknown ↦ (s, false, rw (unknown, rename_file) refl, h, k)
        | inr (proj, known) ↦ elim (Option-cases (get_file s.store name old_rel)) [
          | inl missing ↦ (s, false, rw (known, rename_file) (rw (missing, rename_file) refl), h, k)
          | inr (existing, found) ↦
              let (t, deleting, updated, _) = delete_file-Updated x s h name old_rel in
              elim (Bool-cases passes) [
                | inr refused ↦ (
                  t,
                  false,
                  rw (known, rename_file) (rw (found, rename_file) (rw refused (rw deleting refl))),
                  updated.consistent,
                  Reliable-Updated x k updated,
                )
                | inl accepted ↦
                    let mtime : ℕ = elim file.stat [ none ↦ existing.mtime | some (m, _) ↦ m ] in
                    elim (Result-cases (ChunkStore.rename_file s.store existing.id new_rel mtime)) [
                      | inl (st, renaming) ↦ (
                        record s { store = st },
                        true,
                        rw (known, rename_file)
                            (rw (found, rename_file)
                              (rw accepted (rw (renaming, rename_file) refl))),
                        same_chunks-IsConsistent x s st
                            (rename_file-chunks s.store st existing.id new_rel mtime renaming) h,
                        record { accepted = k.accepted; collision_free = k.collision_free },
                      )
                      | inr (e, fails) ↦
                          let (u, counts, indexing, reindexed) =
                            index_file-Updated x self t name new_rel file updated.consistent
                              (Reliable-Updated x k updated) plain fits
                              (ap (any (λ p. str_eq p.name name)) updated.projects_kept
                                ∙ get_project-known s.store name proj known) in
                          (
                            u,
                            false,
                            rw (known, rename_file)
                                (rw (found, rename_file)
                                  (rw accepted
                                    (rw (fails, rename_file) (rw deleting (rw indexing refl))))),
                            reindexed.consistent,
                            Reliable-Updated x (Reliable-Updated x k updated) reindexed,
                          )
                    ]
              ]
        ]
      ]

  -- A rename succeeds on consistent stores, on every path: an unknown project or file, a destination
  -- that the filter chain refuses, an update in place, or the deletion and indexing that stand in for
  -- it. It leaves consistent stores. The conditions are those of `index_file`.
  pub rename_file-IsConsistent :
      (s : Stores V) (name old_rel new_rel : String) (passes : Bool) (file : DiskFile)
      → IsConsistent x s
      → Reliable x s
      → (s' : Stores V) × (cheap : Bool) × (rename_file x self s name old_rel new_rel passes file
          ≡ ok (s', cheap))
        × IsConsistent x s'
  rename_file-IsConsistent s name old_rel new_rel passes file h k =
      let (s', cheap, run, consistent, _) =
        rename_file-IsReady s name old_rel new_rel passes file h k in
      (s', cheap, run, consistent)
