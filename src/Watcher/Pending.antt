-- ===== src/Watcher/Pending.antt =====
-- watcher.py: an event that was queued, over the steps of a watcher.
use longctx.Base.{
  ℕ, ◌≡◌, refl, sym, ap, ◌∙◌, String, Bool, true, false, not, ◌⊎◌, inl, inr, Bool-cases, Option,
  Option-cases, none, some, List, ◌++◌, select, In-append_left, In-append_right, str_eq, eq_iff,
  if◌then◌else◌, arith,
}
use longctx.Watcher.{
  WatcherEvent, WatcherConfig, ProjectState, Watcher, get_state, update_state, add_project,
  remove_project, pause_project, resume_project, note_query, push, enqueue_event, Work, walk, apply,
  taken, drain_ready, is_dropped, cleaned, cleanup_tick,
}
use longctx.Watcher.States.{
  get_state-name, get_state-map, get_state-append, get_state-select, get_state-In,
}
use longctx.Watcher.Steps.{
  Step, enqueue, drain, pause, resume, query, add, remove, cleanup, Run, here, next, Waits,
  IsPending, IsTakenUp, push-Waits, push-Waits_self, push-name, taken-name, work_for_cases,
  In-ready,
}

-- A change of one project's state, under which an event waits on.
update-IsPending :
    (name project : String) (e : WatcherEvent) (change : ProjectState → ProjectState)
    (cfg : WatcherConfig) (ss : List ProjectState)
    → ((t : ProjectState) → (change t).name ≡ t.name)
    → ((t : ProjectState) → Waits e t → Waits e (change t))
    → IsPending name e (record { cfg = cfg; states = ss })
    → IsPending name e (record { cfg = cfg; states = update_state project change ss })
update-IsPending name project e change cfg ss named kept (s, found, waits) =
    let g : ProjectState → ProjectState = λ t. if str_eq t.name project then change t else t in
    let names : (t : ProjectState) → (g t).name ≡ t.name = λ t.
      elim (Bool-cases (str_eq t.name project)) [
        | inl hit ↦ rw hit (named t)
        | inr miss ↦ rw miss refl
      ] in
    let waits' : Waits e (g s) = elim (Bool-cases (str_eq s.name project)) [
      | inl hit ↦ rw hit (kept s waits)
      | inr miss ↦ rw miss waits
    ] in
    (g s, get_state-map name g s ss names found, waits')

drain-IsPending :
    (name : String) (e : WatcherEvent) (w : Watcher) (now : ℕ)
    → IsPending name e w
    → IsPending name e (drain_ready w now).0 ⊎ IsTakenUp name e (drain_ready w now).1
unfolding drain_ready
drain-IsPending name e w now (s, found, waits) =
    let m = get_state-In name s w.states found in
    let named = get_state-name name s w.states found in
    elim (work_for_cases w.cfg now e s waits) [
      | inl waits' ↦ inl (
        taken w.cfg now s,
        get_state-map name (taken w.cfg now) s w.states (taken-name w.cfg now) found,
        waits',
      )
      | inr work ↦ elim work [
        | inl walks ↦ inr (
          walk s.name,
          In-ready w.cfg now (walk s.name) s w.states m (rw walks (inl refl)),
          named,
        )
        | inr (applies, in_batch) ↦ inr (
          apply s.name s.queue,
          In-ready w.cfg now (apply s.name s.queue) s w.states m (rw applies (inl refl)),
          (named, in_batch),
        )
      ]
    ]

note_query-IsPending :
    (name : String) (e : WatcherEvent) (w : Watcher) (now : ℕ) (project : Option String)
    → IsPending name e w
    → IsPending name e (note_query w now project)
unfolding note_query resume_project
note_query-IsPending name e w now none h = h
note_query-IsPending name e w now (some project) h =
    update-IsPending name project e (λ s. record s { paused = false }) w.cfg
      (update_state project (λ s. record s { last_query_at = now }) w.states) (λ t. refl)
      (λ t waits. waits)
      (update-IsPending name project e (λ s. record s { last_query_at = now }) w.cfg w.states
        (λ t. refl) (λ t waits. waits) h)

cleaned_kept :
    (cfg : WatcherConfig) (now : ℕ) (exists : Bool) (s : ProjectState)
    → ((cleaned cfg now exists s).name ≡ s.name)
      × ((cleaned cfg now exists s).queue ≡ s.queue)
      × ((cleaned cfg now exists s).rescan_pending ≡ s.rescan_pending)
unfolding cleaned
cleaned_kept cfg now exists s = (ground arith, ground arith, ground arith)

add-IsPending :
    (name : String) (e : WatcherEvent) (w : Watcher) (now : ℕ) (project root : String)
    → str_eq name project ≡ false
    → IsPending name e w
    → IsPending name e (add_project w now project root)
unfolding add_project
add-IsPending name e w now project root other (s, found, waits) =
    elim (Option-cases (get_state project w.states)) [
      | inl new ↦ rw (new, add_project) (s, get_state-append name s w.states _ found, waits)
      | inr (t, old) ↦
          let g : ProjectState → ProjectState = λ t.
            if str_eq t.name project
            then record t {
              root_path = root;
              first_missing_at = none;
              paused = false;
              rescan_pending = false;
            }
            else t in
          let names : (t : ProjectState) → (g t).name ≡ t.name = λ t.
            elim (Bool-cases (str_eq t.name project)) [
              | inl hit ↦ rw hit refl
              | inr miss ↦ rw miss refl
            ] in
          let apart : str_eq s.name project ≡ false =
            ap (λ k. str_eq k project) (get_state-name name s w.states found) ∙ other in
          let same : g s ≡ s = rw apart refl in
          rw (old, add_project)
            (s, get_state-map name g s w.states names found ∙ ap some same, waits)
    ]

cleanup-IsPending :
    (name : String) (e : WatcherEvent) (w : Watcher) (now : ℕ) (exists : String → Bool)
    (s : ProjectState)
    → get_state name w.states ≡ some s
    → is_dropped w.cfg now (exists s.root_path) s ≡ false
    → Waits e s
    → IsPending name e (cleanup_tick w now exists).0
unfolding cleanup_tick
cleanup-IsPending name e w now exists s found stays waits =
    let pass : not (is_dropped w.cfg now (exists s.root_path) s) ≡ true = rw stays refl in
    let (_, queue, storm) = cleaned_kept w.cfg now (exists s.root_path) s in
    (
      cleaned w.cfg now (exists s.root_path) s,
      get_state-map name (λ t. cleaned w.cfg now (exists t.root_path) t) s
          (select (λ t. not (is_dropped w.cfg now (exists t.root_path) t)) w.states)
          (λ t. (cleaned_kept w.cfg now (exists t.root_path) t).0)
          (get_state-select name (λ t. not (is_dropped w.cfg now (exists t.root_path) t)) s w.states
            pass found),
      elim waits [ inl m ↦ inl (rw queue m) | inr due ↦ inr (storm ∙ due) ],
    )

-- A step leaves an event pending, or takes it up.
Step-IsPending :
    (name : String) (e : WatcherEvent) {w u : Watcher} {done : List Work}
    → Step name w done u
    → IsPending name e w
    → IsPending name e u ⊎ IsTakenUp name e done
unfolding enqueue_event pause_project resume_project add_project remove_project cleanup_tick
Step-IsPending name e (enqueue w now f) h = inl (
    update-IsPending name f.project e (push w.cfg now f) w.cfg w.states (push-name w.cfg now f)
      (λ t waits. push-Waits w.cfg now e f t waits) h)
Step-IsPending name e (drain w now) h = drain-IsPending name e w now h
Step-IsPending name e (pause w project) h = inl (
    update-IsPending name project e (λ s. record s { paused = true }) w.cfg w.states (λ t. refl)
      (λ t waits. waits) h)
Step-IsPending name e (resume w project) h = inl (
    update-IsPending name project e (λ s. record s { paused = false }) w.cfg w.states (λ t. refl)
      (λ t waits. waits) h)
Step-IsPending name e (query w now project) h = inl (note_query-IsPending name e w now project h)
Step-IsPending name e (add w now project root other) h =
    inl (add-IsPending name e w now project root other h)
Step-IsPending name e (remove w project other) (s, found, waits) =
    let named = get_state-name name s w.states found in
    let pass : not (str_eq s.name project) ≡ true = rw named (rw other refl) in
    inl (s, get_state-select name (λ t. not (str_eq t.name project)) s w.states pass found, waits)
Step-IsPending name e (cleanup w now exists stays) (s, found, waits) =
    inl (cleanup-IsPending name e w now exists s found (stays s found) waits)

IsTakenUp-append :
    (name : String) (e : WatcherEvent) (done more : List Work)
    → IsTakenUp name e done ⊎ IsTakenUp name e more
    → IsTakenUp name e (done ++ more)
IsTakenUp-append name e done more (inl (work, m, takes)) =
    (work, In-append_left work done more m, takes)
IsTakenUp-append name e done more (inr (work, m, takes)) =
    (work, In-append_right work done more m, takes)

Run-IsPending :
    (name : String) (e : WatcherEvent) {w u : Watcher} {done : List Work}
    → Run name w done u
    → IsPending name e w
    → IsPending name e u ⊎ IsTakenUp name e done
Run-IsPending name e here h = inl h
Run-IsPending name e (next {v} {u} {done} {more} before step) h =
    elim (Run-IsPending name e before h) [
      | inl waits ↦ elim (Step-IsPending name e step waits) [
        | inl later ↦ inl later
        | inr taken_up ↦ inr (IsTakenUp-append name e done more (inr taken_up))
      ]
      | inr taken_up ↦ inr (IsTakenUp-append name e done more (inl taken_up))
    ]

-- Once an event of a watched project is queued, then after any steps that neither drop the project nor
-- register it again the event waits in the project's queue, or a walk of its root is due, or the worker
-- has taken it up: in a batch that holds it, or with a walk of the root.
pub enqueue_event-IsPending :
    (name : String) (w u : Watcher) (now : ℕ) (e : WatcherEvent) (s : ProjectState)
    (done : List Work)
    → e.project ≡ name
    → get_state name w.states ≡ some s
    → Run name (enqueue_event w now e) done u
    → IsPending name e u ⊎ IsTakenUp name e done
unfolding enqueue_event
enqueue_event-IsPending name w u now e s done own found steps =
    let named : str_eq s.name e.project ≡ true =
      (eq_iff s.name e.project).1 (get_state-name name s w.states found ∙ sym own) in
    let g : ProjectState → ProjectState =
      λ t. if str_eq t.name e.project then push w.cfg now e t else t in
    let names : (t : ProjectState) → (g t).name ≡ t.name = λ t.
      elim (Bool-cases (str_eq t.name e.project)) [
        | inl hit ↦ rw hit (push-name w.cfg now e t)
        | inr miss ↦ rw miss refl
      ] in
    let hit : g s ≡ push w.cfg now e s = rw named refl in
    Run-IsPending name e steps (
      push w.cfg now e s,
      get_state-map name g s w.states names found ∙ ap some hit,
      push-Waits_self w.cfg now e s,
    )
