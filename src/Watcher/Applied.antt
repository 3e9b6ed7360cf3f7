-- ===== src/Watcher/Applied.antt =====
-- watcher.py: `_apply_events` on consistent stores.
use longctx.Base.{
  ◌≡◌, refl, ap, String, true, Option, none, some, Option-cases, Bool-cases, ◌⊎◌, inl, inr, List,
  [], ◌∷◌,
}
use longctx.Base.Result.{Error, Result, ok, raise, key_error, Result-cases, >>=-eq-ok, ok_injective}
use longctx.Chunker.Sentence.{Fits}
use longctx.ChunkStore.{get_project}
use longctx.Indexer.{Externals, Indexer, Stores}
use longctx.Indexer.Consistent.{IsConsistent}
use longctx.Indexer.Swap.{Reliable, Reliable-Updated}
use longctx.Indexer.Remove.{delete_file-Updated}
use longctx.Indexer.Manage.{
  Candidate, Counts, no_counts, count, assert_embedder_consistent, update_file, update_files,
}
use longctx.Indexer.Scan.{get_project-known_name, index_candidate-Updated}
use longctx.Indexer.Rename.{rename_file-IsReady}
use longctx.Watcher.{EventType, create, modify, delete, rename, WatcherEvent, Watcher, get_state}
use longctx.Watcher.Apply.{
  Disk, bulk_paths, update_all, safe_update_one, update_each, apply_bulk, old_or_empty,
  apply_delete, apply_rename, apply_event, apply_tail, apply_events,
}

module _ {V : Type 0} (x : Externals V) (indexer : Indexer) (plain : indexer.tokenizer ≡ none)
    (fits : Fits indexer.chunker) (name : String) where
  -- Consistent stores, of which the indexer may rely on the externals.
  abbrev IsReady : Stores V → Type 0
  IsReady s = IsConsistent x s × Reliable x s

  -- A call that raises, or returns with such stores.
  abbrev Ends : Result (Stores V × Counts) → Type 0
  Ends run =
      ((e : Error) × (run ≡ raise e))
      ⊎ ((s' : Stores V) × (n : Counts) × (run ≡ ok (s', n)) × IsReady s')

  update_file-Ends :
      (s : Stores V) (c : Candidate) → IsReady s → Ends (update_file x indexer s name c)
  unfolding update_file
  update_file-Ends s c (h, k) = elim (Result-cases (assert_embedder_consistent indexer s.store)) [
    | inr (e, other) ↦ inl (e, rw other refl)
    | inl (u, same) ↦ elim (Option-cases (get_project s.store name)) [
      | inl unknown ↦ inl (key_error, rw (same, unknown) refl)
      | inr (proj, found) ↦
          let (s', res, run, u) =
            index_candidate-Updated x indexer plain fits s proj.name c h k
              (get_project-known_name s.store name proj found) in
          inr (
            s',
            count no_counts res,
            rw (same, found) (rw run refl),
            (u.consistent, Reliable-Updated x k u),
          )
    ]
  ]

  -- Where `update_files` returns, `update_all` has its stores.
  update_all-update_files :
      (s s' : Stores V) (n n' : Counts) (cs : List Candidate)
      → update_files x indexer s name n cs ≡ ok (s', n')
      → update_all x indexer name s cs ≡ (s', true)
  unfolding update_all update_files
  update_all-update_files s s' n n' [] run =
      ap (λ k. (k, true)) (ap (λ o. o.0) (ok_injective (s, n) (s', n') run))
  update_all-update_files s s' n n' (c ∷ cs) run =
      let (out, first, rest) = >>=-eq-ok (update_file x indexer s name c) _ run in
      rw (first, update_all) (update_all-update_files out.0 s' _ n' cs rest)

  update_all-IsReady :
      (s : Stores V) (cs : List Candidate) → IsReady s → IsReady (update_all x indexer name s cs).0
  unfolding update_all
  update_all-IsReady s [] ready = ready
  update_all-IsReady s (c ∷ cs) ready = elim (update_file-Ends s c ready) [
    | inl (e, fails) ↦ rw (fails, update_all) ready
    | inr (s', n, run, ready') ↦ rw (run, update_all) (update_all-IsReady s' cs ready')
  ]

  safe_update_one-IsReady :
      (s : Stores V) (c : Candidate) → IsReady s → IsReady (safe_update_one x indexer name s c)
  unfolding safe_update_one
  safe_update_one-IsReady s c ready = elim (update_file-Ends s c ready) [
    | inl (e, fails) ↦ rw (fails, safe_update_one) ready
    | inr (s', n, run, ready') ↦ rw (run, safe_update_one) ready'
  ]

  update_each-IsReady :
      (s : Stores V) (cs : List Candidate) → IsReady s → IsReady (update_each x indexer name s cs)
  unfolding update_each
  update_each-IsReady s [] ready = ready
  update_each-IsReady s (c ∷ cs) ready =
      update_each-IsReady (safe_update_one x indexer name s c) cs
        (safe_update_one-IsReady s c ready)

  apply_bulk-IsReady :
      (s : Stores V) (cs : List Candidate) → IsReady s → IsReady (apply_bulk x indexer name s cs)
  unfolding apply_bulk
  apply_bulk-IsReady s cs ready =
      let after = update_all-IsReady s cs ready in
      elim (Bool-cases (update_all x indexer name s cs).1) [
        | inl returned ↦ rw returned after
        | inr raised ↦ rw raised (update_each-IsReady (update_all x indexer name s cs).0 cs after)
      ]

  apply_delete-IsReady :
      (s : Stores V) (rel : Option String) → IsReady s → IsReady (apply_delete x indexer name s rel)
  unfolding apply_delete
  apply_delete-IsReady s none ready = ready
  apply_delete-IsReady s (some rel) (h, k) =
      let (s', run, u, _) = delete_file-Updated x s h name rel in
      rw (run, apply_delete) (u.consistent, Reliable-Updated x k u)

  apply_rename-IsReady :
      (disk : Disk) (root : String) (s : Stores V) (rel_old rel_new : Option String)
      → IsReady s
      → IsReady (apply_rename x indexer name disk root s rel_old rel_new)
  unfolding apply_rename
  apply_rename-IsReady disk root s none rel_new ready = ready
  apply_rename-IsReady disk root s (some rel_old) none ready = ready
  apply_rename-IsReady disk root s (some rel_old) (some rel_new) (h, k) =
      let at_path = disk.destination root rel_new in
      let (s', cheap, run, consistent, reliable) =
        rename_file-IsReady x indexer plain fits s name rel_old rel_new at_path.0 at_path.1 h k in
      rw (run, apply_rename) (consistent, reliable)

  apply_event-IsReady :
      (disk : Disk) (root : String) (s : Stores V) (ev : WatcherEvent) (kind : EventType)
      → IsReady s
      → IsReady (apply_event x indexer name disk root s ev kind)
  unfolding apply_event
  apply_event-IsReady disk root s ev create ready = ready
  apply_event-IsReady disk root s ev modify ready = ready
  apply_event-IsReady disk root s ev delete ready =
      apply_delete-IsReady s (disk.to_rel root ev.path) ready
  apply_event-IsReady disk root s ev rename ready =
      apply_rename-IsReady disk root s (disk.to_rel root (old_or_empty ev.old_path))
        (disk.to_rel root ev.path) ready

  apply_tail-IsReady :
      (disk : Disk) (root : String) (s : Stores V) (evs : List WatcherEvent)
      → IsReady s
      → IsReady (apply_tail x indexer name disk root s evs)
  unfolding apply_tail
  apply_tail-IsReady disk root s [] ready = ready
  apply_tail-IsReady disk root s (ev ∷ evs) ready =
      apply_tail-IsReady disk root (apply_event x indexer name disk root s ev ev.type) evs
        (apply_event-IsReady disk root s ev ev.type ready)

  -- Whatever events a batch has, and whatever of them is refused or raises, carrying it out on
  -- consistent stores leaves consistent stores, on which the next batch may be carried out. The
  -- conditions are those of `index_file`, but the project need not be known.
  pub apply_events-IsReady :
      (disk : Disk) (self : Watcher) (s : Stores V) (events : List WatcherEvent)
      → IsReady s
      → IsReady (apply_events x indexer name disk self s events)
  unfolding apply_events
  apply_events-IsReady disk self s events ready = elim (Option-cases (get_state name self.states)) [
    | inl dropped ↦ rw (dropped, apply_events) ready
    | inr (st, watched) ↦
        rw (watched, apply_events)
          (apply_tail-IsReady disk st.root_path _ events
            (apply_bulk-IsReady s (bulk_paths disk st.root_path events) ready))
  ]
