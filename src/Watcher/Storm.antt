-- ===== src/Watcher/Storm.antt =====
-- watcher.py: the walk of a root after an overflow of the queue.
use longctx.Base.{
  ℕ, ◌+◌, ◌≤◌, ◌<◌, ◌≡◌, refl, sym, ap, ◌∙◌, String, true, false, inl, inr, Bool-cases,
  Option-cases, some, List, [], ◌∷◌, ◌++◌, All, All-append, str_eq, eq_iff, if◌then◌else◌, length,
  length-append, ltb, any, arith,
}
use longctx.Watcher.{
  WatcherEvent, WatcherConfig, ProjectState, Watcher, get_state, push, enqueue_event, walk, taken,
  work_for, drain_ready, WalkedFile, recorded, changed_events, gone_events, enqueue_all,
  mtime_walk_project,
}
use longctx.Watcher.States.{get_state-name, get_state-map}
use longctx.Watcher.Steps.{push-name, taken-name}

push_all : WatcherConfig → ℕ → List WatcherEvent → ProjectState → ProjectState
push_all cfg now [] s = s
push_all cfg now (e ∷ es) s = push_all cfg now es (push cfg now e s)

push_all-name :
    (cfg : WatcherConfig) (now : ℕ) (es : List WatcherEvent) (s : ProjectState)
    → (push_all cfg now es s).name ≡ s.name
unfolding push_all
push_all-name cfg now [] s = refl
push_all-name cfg now (e ∷ es) s =
    push_all-name cfg now es (push cfg now e s) ∙ push-name cfg now e s

-- Once the queue has overflowed, nothing more is queued.
storm_stays :
    (cfg : WatcherConfig) (now : ℕ) (es : List WatcherEvent) (s : ProjectState)
    → s.rescan_pending ≡ true
    → ((push_all cfg now es s).rescan_pending ≡ true) × ((push_all cfg now es s).queue ≡ s.queue)
unfolding push_all push
storm_stays cfg now [] s storm = (storm, refl)
storm_stays cfg now (e ∷ es) s storm =
    let (due, queue) = storm_stays cfg now es (push cfg now e s) (ground arith) in
    (due, queue ∙ ground arith)

storm_breaks :
    (cfg : WatcherConfig) (now : ℕ) (es : List WatcherEvent) (s : ProjectState)
    → s.rescan_pending ≡ false
    → length s.queue ≤ cfg.queue_size
    → cfg.queue_size < length s.queue + length es
    → ((push_all cfg now es s).rescan_pending ≡ true) × ((push_all cfg now es s).queue ≡ [])
unfolding push_all push
storm_breaks cfg now [] s calm fits many = absurd (omega arith)
storm_breaks cfg now (e ∷ es) s calm fits many =
    let size : length (s.queue ++ e ∷ []) ≡ length s.queue + 1 =
      omega (arith, length-append s.queue (e ∷ [])) in
    elim (Bool-cases (ltb cfg.queue_size (length (s.queue ++ e ∷ [])))) [
      | inl full ↦
          let (due, queue) = storm_stays cfg now es (push cfg now e s) (ground arith) in
          (due, queue ∙ ground arith)
      | inr room ↦
          let same : (push cfg now e s).queue ≡ s.queue ++ e ∷ [] = ground arith in
          let size' : length (push cfg now e s).queue ≡ length s.queue + 1 =
            ap length same ∙ size in
          storm_breaks cfg now es (push cfg now e s) (ground arith) (ground arith) (omega arith)
    ]

get_state-enqueue_all :
    (name : String) (w : Watcher) (now : ℕ) (es : List WatcherEvent) (s : ProjectState)
    → All (λ e. e.project ≡ name) es
    → get_state name w.states ≡ some s
    → get_state name (enqueue_all w now es).states ≡ some (push_all w.cfg now es s)
unfolding push_all enqueue_event
get_state-enqueue_all name w now [] s own found = found
get_state-enqueue_all name w now (e ∷ es) s (mine, rest) found =
    let g : ProjectState → ProjectState =
      λ t. if str_eq t.name e.project then push w.cfg now e t else t in
    let names : (t : ProjectState) → (g t).name ≡ t.name = λ t.
      elim (Bool-cases (str_eq t.name e.project)) [
        | inl hit ↦ rw hit (push-name w.cfg now e t)
        | inr miss ↦ rw miss refl
      ] in
    let named : str_eq s.name e.project ≡ true =
      (eq_iff s.name e.project).1 (get_state-name name s w.states found ∙ sym mine) in
    let hit : g s ≡ push w.cfg now e s = rw named refl in
    get_state-enqueue_all name (enqueue_event w now e) now es (push w.cfg now e s) rest
      (get_state-map name g s w.states names found ∙ ap some hit)

changed_events-project :
    (name : String) (now : ℕ) (rs : List (String × ℕ)) (fs : List WalkedFile)
    → All (λ e. e.project ≡ name) (changed_events name now rs fs)
unfolding changed_events
changed_events-project name now rs [] = tt
changed_events-project name now rs (f ∷ fs) =
    let rest = changed_events-project name now rs fs in
    elim (Option-cases f.mtime) [
      | inl lost ↦ rw (lost, changed_events) rest
      | inr (m, at) ↦ elim (Option-cases (recorded rs f.rel)) [
        | inl new ↦ rw (at, changed_events) (rw (new, changed_events) (refl, rest))
        | inr (old, known) ↦ elim (Bool-cases (ltb old m)) [
          | inl newer ↦ rw (at, changed_events) (rw (known, changed_events) (rw newer (refl, rest)))
          | inr same ↦ rw (at, changed_events) (rw (known, changed_events) (rw same rest))
        ]
      ]
    ]

gone_events-project :
    (name : String) (now : ℕ) (full_path : String → String) (rs : List (String × ℕ))
    (fs : List WalkedFile)
    → All (λ e. e.project ≡ name) (gone_events name now full_path rs fs)
unfolding gone_events
gone_events-project name now full_path [] fs = tt
gone_events-project name now full_path ((rel, mtime) ∷ rs) fs =
    elim (Bool-cases (any (λ f. str_eq f.rel rel) fs)) [
      | inl there ↦ rw there (gone_events-project name now full_path rs fs)
      | inr gone ↦ rw gone (refl, gone_events-project name now full_path rs fs)
    ]

-- What a walk comes to, as events.
abbrev pub drifted :
    String → ℕ → (String → String) → List (String × ℕ) → List WalkedFile → List WatcherEvent
drifted name now full_path rs files =
    changed_events name now rs files ++ gone_events name now full_path rs files

-- Where a walk is due for a project and its root differs from the records in more files than the queue
-- holds, the worker's next round does nothing but the walk, and the walk leaves the project as it was:
-- with an empty queue, and a walk due. The condition on the queue is that of a watcher's run: it has not
-- overflowed.
pub drain-walk_stuck :
    (w : Watcher) (name : String) (s : ProjectState) (now later : ℕ) (full_path : String → String)
    (rs : List (String × ℕ)) (files : List WalkedFile)
    → get_state name w.states ≡ some s
    → s.rescan_pending ≡ true
    → length s.queue ≤ w.cfg.queue_size
    → w.cfg.queue_size < length (drifted name later full_path rs files)
    → (work_for w.cfg now s ≡ walk name ∷ [])
      × (t : ProjectState) × (get_state name
            (mtime_walk_project (drain_ready w now).0 later name full_path rs (some files)).states
          ≡ some t)
      × (t.queue ≡ [])
      × (t.rescan_pending ≡ true)
unfolding drain_ready mtime_walk_project work_for taken
drain-walk_stuck w name s now later full_path rs files found storm fits many =
    let es = drifted name later full_path rs files in
    let s' = taken w.cfg now s in
    let calm : s'.rescan_pending ≡ false = ground arith in
    let fits' : length s'.queue ≤ w.cfg.queue_size = ground arith in
    let found' : get_state name (drain_ready w now).0.states ≡ some s' =
      get_state-map name (taken w.cfg now) s w.states (taken-name w.cfg now) found in
    let own : All (λ e. e.project ≡ name) es =
      All-append (λ e. e.project ≡ name) (changed_events name later rs files) _
        (changed_events-project name later rs files)
        (gone_events-project name later full_path rs files) in
    let (due, queue) = storm_breaks w.cfg later es s' calm fits' (omega arith) in
    (
      rw storm (ap (λ k. walk k ∷ []) (get_state-name name s w.states found)),
      push_all w.cfg later es s',
      get_state-enqueue_all name (drain_ready w now).0 later es s' own found',
      queue,
      due,
    )
