-- ===== src/Watcher/Coalesce.antt =====
-- `_coalesce_events`: one event for each path. The dictionary `per_path` is a list of events, with their
-- paths as the keys; it keeps the order in which its keys came in, which is that of `order`. The time of
-- an event that is made here is not looked at again.
pub mod Phases
pub mod Words
pub mod Net
use longctx.Base.{
  ℕ, ◌+◌, String, Bool, true, false, not, ◌&&◌, Option, none, some, List, [], ◌∷◌, map, ltb, ◌==◌,
  str_eq, if◌then◌else◌, length, select, find,
}
use longctx.Watcher.{EventType, create, modify, delete, rename, WatcherEvent}

abbrev pub is_create : WatcherEvent → Bool
is_create e = elim e.type [ create ↦ true | _ ↦ false ]

abbrev pub is_delete : WatcherEvent → Bool
is_delete e = elim e.type [ delete ↦ true | _ ↦ false ]

-- `per_path[key] = ev`
abbrev pub set_event : WatcherEvent → List WatcherEvent → List WatcherEvent
set_event ev [] = ev ∷ []
set_event ev (e ∷ es) =
    let rest = set_event ev es in if str_eq e.path ev.path then ev ∷ es else e ∷ rest

-- The first phase: the last event of each path.
unfoldable pub per_path_from : List WatcherEvent → List WatcherEvent → List WatcherEvent
per_path_from per_path [] = per_path
per_path_from per_path (ev ∷ events) = per_path_from (set_event ev per_path) events

-- `first_index.get((path, type))`
abbrev pub first_index : (WatcherEvent → Bool) → String → ℕ → List WatcherEvent → Option ℕ
first_index is_type path i [] = none
first_index is_type path i (e ∷ es) =
    let rest = first_index is_type path (i + 1) es in
    if str_eq e.path path && is_type e then some i else rest

-- The second phase, for one surviving event.
unfoldable pub upgrade : List WatcherEvent → WatcherEvent → WatcherEvent
upgrade events surviving =
    let earlier : Bool = elim (first_index is_delete surviving.path 0 events) [
      | none ↦ false
      | some del_idx ↦ elim (first_index is_create surviving.path 0 events) [
        | none ↦ false
        | some cre_idx ↦ ltb del_idx cre_idx
      ]
    ] in
    if is_create surviving && earlier
    then record surviving { type = modify; old_path = none }
    else surviving

-- The third phase: the only deletion and the only creation become a rename.
abbrev pub rename_event : WatcherEvent → WatcherEvent → WatcherEvent
rename_event old new = record {
  project = old.project;
  type = rename;
  path = new.path;
  old_path = some old.path;
  observed_at = new.observed_at;
}

abbrev pub renamed : WatcherEvent → WatcherEvent → List WatcherEvent → List WatcherEvent
renamed old new per_path =
    map (λ e. if str_eq e.path new.path then rename_event old new else e)
      (select (λ e. not (str_eq e.path old.path)) per_path)

unfoldable pub fold_rename : List WatcherEvent → List WatcherEvent
fold_rename per_path = elim (select is_delete per_path) [
  | [] ↦ per_path
  | old ∷ olds ↦ elim (select is_create per_path) [
    | [] ↦ per_path
    | new ∷ news ↦
        if length olds == 0 && length news == 0 && not (str_eq old.path new.path)
        then renamed old new per_path
        else per_path
  ]
]

unfoldable pub coalesce_events : List WatcherEvent → List WatcherEvent
unfolding per_path_from upgrade fold_rename
coalesce_events events = fold_rename (map (upgrade events) (per_path_from [] events))
