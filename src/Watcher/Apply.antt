-- ===== src/Watcher/Apply.antt =====
-- watcher.py: `_apply_events`, which carries a batch out on the indexer. What pathlib and the disk say of
-- an event's paths are arguments. A call that raises is logged, and is taken to leave the stores as they
-- were; `update_files` keeps what it did before the call that raised.
use longctx.Base.{String, Bool, true, false, Option, none, some, List, [], ◌∷◌, if◌then◌else◌}
use longctx.Base.Result.{ok, raise}
use longctx.Indexer.{Externals, Indexer, Stores, DiskFile, delete_file}
use longctx.Indexer.Manage.{Candidate, update_file, rename_file}
use longctx.Watcher.{EventType, create, modify, delete, rename, WatcherEvent, Watcher, get_state}

-- What is found below a root: the file at an event's path, `none` where the path is refused; a path
-- below the root, `none` where it lies elsewhere; and for such a path the verdict of the filter chain,
-- and what is on disk.
pub record Disk : Type 0 where
  pub file_at : String → String → Option Candidate
  pub to_rel : String → String → Option String
  pub destination : String → String → Bool × DiskFile

module _ (disk : Disk) (root : String) where
  -- `bulk_paths`
  unfoldable pub bulk_paths : List WatcherEvent → List Candidate
  bulk_paths [] = []
  bulk_paths (ev ∷ evs) =
      let rest = bulk_paths evs in
      let found : List Candidate = elim (disk.file_at root ev.path) [
        | none ↦ rest
        | some c ↦ c ∷ rest
      ] in
      elim ev.type [ create ↦ found | modify ↦ found | delete ↦ rest | rename ↦ rest ]

-- `ev.old_path or ""`
abbrev pub old_or_empty : Option String → String
old_or_empty none = ""
old_or_empty (some old) = old

module _ {V : Type 0} (x : Externals V) (indexer : Indexer) (name : String) where
  -- `update_files` as its caller sees it: the stores, and whether it returned.
  unfoldable pub update_all : Stores V → List Candidate → Stores V × Bool
  update_all s [] = (s, true)
  update_all s (c ∷ cs) = elim (update_file x indexer s name c) [
    | raise _ ↦ (s, false)
    | ok (s', _) ↦ update_all s' cs
  ]

  unfoldable pub safe_update_one : Stores V → Candidate → Stores V
  safe_update_one s c = elim (update_file x indexer s name c) [ raise _ ↦ s | ok (s', _) ↦ s' ]

  unfoldable pub update_each : Stores V → List Candidate → Stores V
  unfolding safe_update_one
  update_each s [] = s
  update_each s (c ∷ cs) = update_each (safe_update_one s c) cs

  -- The bulk call, with the calls for each path where it raises.
  unfoldable pub apply_bulk : Stores V → List Candidate → Stores V
  unfolding update_all update_each
  apply_bulk s paths =
      let s' = (update_all s paths).0 in
      let one_by_one = update_each s' paths in if (update_all s paths).1 then s' else one_by_one

  -- Of a path below the root, if it is one.
  unfoldable pub apply_delete : Stores V → Option String → Stores V
  apply_delete s none = s
  apply_delete s (some rel) = elim (delete_file x s name rel) [ raise _ ↦ s | ok s' ↦ s' ]

  unfoldable pub apply_rename : Disk → String → Stores V → Option String → Option String → Stores V
  apply_rename disk root s none rel_new = s
  apply_rename disk root s (some rel_old) none = s
  apply_rename disk root s (some rel_old) (some rel_new) =
      let (passes, file) = disk.destination root rel_new in
      elim (rename_file x indexer s name rel_old rel_new passes file) [
        | raise _ ↦ s
        | ok (s', _) ↦ s'
      ]

  -- A deletion or a rename; the other events have been dealt with.
  unfoldable pub apply_event : Disk → String → Stores V → WatcherEvent → EventType → Stores V
  unfolding apply_delete apply_rename
  apply_event disk root s ev create = s
  apply_event disk root s ev modify = s
  apply_event disk root s ev delete = apply_delete s (disk.to_rel root ev.path)
  apply_event disk root s ev rename =
      apply_rename disk root s (disk.to_rel root (old_or_empty ev.old_path))
        (disk.to_rel root ev.path)

  unfoldable pub apply_tail : Disk → String → Stores V → List WatcherEvent → Stores V
  unfolding apply_event
  apply_tail disk root s [] = s
  apply_tail disk root s (ev ∷ evs) = apply_tail disk root (apply_event disk root s ev ev.type) evs

  unfoldable pub apply_events : Disk → Watcher → Stores V → List WatcherEvent → Stores V
  unfolding apply_bulk apply_tail bulk_paths
  apply_events disk self s events = elim (get_state name self.states) [
    | none ↦ s
    | some state ↦
        apply_tail disk state.root_path (apply_bulk s (bulk_paths disk state.root_path events))
          events
  ]
