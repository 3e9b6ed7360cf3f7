-- ===== src/Watcher.antt =====
-- longctx_daemon/watcher.py: the projects that are watched, the queues of their events, and the work
-- that the worker takes from them. Times are whole milliseconds or seconds and come as arguments; a
-- watch task is not modelled, nor is the waking of waiters.
pub mod Coalesce
pub mod States
pub mod Steps
pub mod Pending
pub mod Storm
pub mod Apply
pub mod Applied
use longctx.Base.{
  ℕ, ◌+◌, ◌*◌, String, Bool, true, false, not, ◌&&◌, ◌||◌, Option, none, some, List, [], ◌∷◌, ◌++◌,
  map, ltb, leb, ◌==◌, str_eq, if◌then◌else◌, length, select, find, any,
}

pub data EventType : Type 0 where
  create modify delete rename : EventType

pub record WatcherEvent : Type 0 where
  pub project : String
  pub type : EventType
  pub path : String
  pub old_path : Option String
  pub observed_at : ℕ

pub record WatcherConfig : Type 0 where
  pub debounce_ms : ℕ
  pub queue_size : ℕ
  pub watcher_idle_pause_days : ℕ
  pub missing_root_grace_days : ℕ

pub record ProjectState : Type 0 where
  pub name : String
  pub root_path : String
  pub queue : List WatcherEvent
  pub last_event_at : ℕ
  pub last_query_at : ℕ
  pub paused : Bool
  pub rescan_pending : Bool
  pub first_missing_at : Option ℕ

pub record Watcher : Type 0 where
  pub cfg : WatcherConfig
  pub states : List ProjectState

-- `self._states.get(name)`, and a change of the state under that name.
abbrev pub get_state : String → List ProjectState → Option ProjectState
get_state name = find (λ s. str_eq s.name name)

abbrev pub update_state :
    String → (ProjectState → ProjectState) → List ProjectState → List ProjectState
update_state name change = map (λ s. if str_eq s.name name then change s else s)

-- `add_project`, for a project's name and root.
unfoldable pub add_project : Watcher → ℕ → String → String → Watcher
add_project self now name root = elim (get_state name self.states) [
  | none ↦ record self {
    states =
        self.states
        ++ record {
          name = name;
          root_path = root;
          queue = [];
          last_event_at = 0;
          last_query_at = now;
          paused = false;
          rescan_pending = false;
          first_missing_at = none;
        }
          ∷ [];
  }
  | some _ ↦ record self {
    states =
        update_state name
          (λ s. record s {
            root_path = root;
            first_missing_at = none;
            paused = false;
            rescan_pending = false;
          })
          self.states;
  }
]

unfoldable pub remove_project : Watcher → String → Watcher
remove_project self name = record self {
  states = select (λ s. not (str_eq s.name name)) self.states;
}

unfoldable pub pause_project : Watcher → String → Watcher
pause_project self name = record self {
  states = update_state name (λ s. record s { paused = true }) self.states;
}

-- `resume_project`; the walk that catches up is scheduled by the loop.
unfoldable pub resume_project : Watcher → String → Watcher
resume_project self name = record self {
  states = update_state name (λ s. record s { paused = false }) self.states;
}

unfoldable pub note_query : Watcher → ℕ → Option String → Watcher
unfolding resume_project
note_query self now none = self
note_query self now (some name) =
    resume_project
      (record self {
        states = update_state name (λ s. record s { last_query_at = now }) self.states;
      })
      name

abbrev queued : List ProjectState → ℕ
queued [] = 0
queued (s ∷ ss) = length s.queue + queued ss

unfoldable pub pending_updates : Watcher → Option String → ℕ
pending_updates self none = queued self.states
pending_updates self (some name) = elim (get_state name self.states) [
  | none ↦ 0
  | some s ↦ length s.queue
]

-- The effect of `_enqueue_event` on the state of its project, at the time `now`.
unfoldable pub push : WatcherConfig → ℕ → WatcherEvent → ProjectState → ProjectState
push cfg now event s =
    let t = record s { queue = s.queue ++ event ∷ []; last_event_at = now } in
    if s.rescan_pending
    then record s { last_event_at = now }
    else if ltb cfg.queue_size (length t.queue)
    then record t { queue = []; rescan_pending = true }
    else t

unfoldable pub enqueue_event : Watcher → ℕ → WatcherEvent → Watcher
unfolding push
enqueue_event self now event = record self {
  states = update_state event.project (push self.cfg now event) self.states;
}

-- What the worker does for a project: a walk of its root, or the events of its queue.
pub data Work : Type 0 where
  walk : String → Work
  apply : String → List WatcherEvent → Work

-- The first half of `_drain_now`, which holds the lock: what is taken from a state, and the state then.
unfoldable pub is_due : WatcherConfig → ℕ → ProjectState → Bool
is_due cfg now s = elim s.queue [
  | [] ↦ false
  | first ∷ _ ↦ leb (first.observed_at + cfg.debounce_ms) now
]

unfoldable pub taken : WatcherConfig → ℕ → ProjectState → ProjectState
unfolding is_due
taken cfg now s =
    let events = if is_due cfg now s then s.queue else [] in
    let left = if is_due cfg now s then [] else s.queue in
    record s {
      queue = left;
      rescan_pending =
          if not (length events == 0) || s.rescan_pending then false else s.rescan_pending;
    }

unfoldable pub work_for : WatcherConfig → ℕ → ProjectState → List Work
unfolding is_due
work_for cfg now s =
    let events = if is_due cfg now s then s.queue else [] in
    if s.rescan_pending
    then walk s.name ∷ []
    else if length events == 0
    then []
    else apply s.name events ∷ []

unfoldable pub ready : WatcherConfig → ℕ → List ProjectState → List Work
unfolding work_for
ready cfg now [] = []
ready cfg now (s ∷ ss) = work_for cfg now s ++ ready cfg now ss

unfoldable pub drain_ready : Watcher → ℕ → Watcher × List Work
unfolding taken ready
drain_ready self now =
    (record self { states = map (taken self.cfg now) self.states }, ready self.cfg now self.states)

-- A file that the walk of a root comes by: its path, below the root and in full, and its mtime if it can
-- be had.
pub record WalkedFile : Type 0 where
  pub rel : String
  pub full : String
  pub mtime : Option ℕ

-- The mtime that is on record for a file.
abbrev pub recorded : List (String × ℕ) → String → Option ℕ
recorded [] rel = none
recorded ((r, mtime) ∷ rs) rel = if str_eq r rel then some mtime else recorded rs rel

abbrev walk_event : String → ℕ → EventType → String → WatcherEvent
walk_event name now kind full = record {
  project = name;
  type = kind;
  path = full;
  old_path = none;
  observed_at = now;
}

-- The events of `_mtime_walk_project`: one for each file that is new or newer, and one for each recorded
-- file that the walk did not come by. The time of an event is that of the walk.
unfoldable pub changed_events : String → ℕ → List (String × ℕ) → List WalkedFile → List WatcherEvent
changed_events name now rs [] = []
changed_events name now rs (f ∷ fs) =
    let rest = changed_events name now rs fs in
    elim f.mtime [
      | none ↦ rest
      | some m ↦ elim (recorded rs f.rel) [
        | none ↦ walk_event name now create f.full ∷ rest
        | some old ↦ if ltb old m then walk_event name now modify f.full ∷ rest else rest
      ]
    ]

unfoldable pub gone_events :
    String → ℕ → (String → String) → List (String × ℕ) → List WalkedFile → List WatcherEvent
gone_events name now full_path [] fs = []
gone_events name now full_path ((rel, _) ∷ rs) fs =
    let rest = gone_events name now full_path rs fs in
    if any (λ f. str_eq f.rel rel) fs
    then rest
    else walk_event name now delete (full_path rel) ∷ rest

abbrev pub enqueue_all : Watcher → ℕ → List WatcherEvent → Watcher
enqueue_all self now [] = self
enqueue_all self now (e ∷ es) = enqueue_all (enqueue_event self now e) now es

-- `_mtime_walk_project`: `files` is what the walk finds, or `none` if there is no root.
unfoldable pub mtime_walk_project :
    Watcher
    → ℕ
    → String
    → (String → String)
    → List (String × ℕ)
    → Option (List WalkedFile)
    → Watcher
unfolding changed_events gone_events
mtime_walk_project self now name full_path rs none = self
mtime_walk_project self now name full_path rs (some files) =
    enqueue_all self now
      (changed_events name now rs files ++ gone_events name now full_path rs files)

-- One round of `_cleanup_tick`, for a state that is registered: whether its project is dropped.
unfoldable pub is_dropped : WatcherConfig → ℕ → Bool → ProjectState → Bool
is_dropped cfg now exists s =
    let since : ℕ = elim s.first_missing_at [ none ↦ now | some t ↦ t ] in
    not exists && leb (since + cfg.missing_root_grace_days * 86400) now

unfoldable pub cleaned : WatcherConfig → ℕ → Bool → ProjectState → ProjectState
cleaned cfg now exists s =
    let since : ℕ = elim s.first_missing_at [ none ↦ now | some t ↦ t ] in
    let t = record s { first_missing_at = if exists then none else some since } in
    if not s.paused
      && leb (s.last_query_at + cfg.watcher_idle_pause_days * 86400) now
      && length s.queue == 0
    then record t { paused = true }
    else t

-- `_cleanup_tick`: the projects that the indexer is told to delete, and the states that are left.
unfoldable pub cleanup_tick : Watcher → ℕ → (String → Bool) → Watcher × List String
unfolding is_dropped cleaned
cleanup_tick self now exists = (
  record self {
    states =
        map (λ s. cleaned self.cfg now (exists s.root_path) s)
          (select (λ s. not (is_dropped self.cfg now (exists s.root_path) s)) self.states);
  },
  map (λ s. s.name) (select (λ s. is_dropped self.cfg now (exists s.root_path) s) self.states),
)
