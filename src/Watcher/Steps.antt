-- ===== src/Watcher/Steps.antt =====
-- The steps of a watcher, and what they do to an event that waits.
use longctx.Base.{
  ℕ, ◌≡◌, refl, String, Bool, true, false, ◌⊎◌, inl, inr, Bool-cases, Option, some, List, [], ◌∷◌,
  ◌++◌, In, In-append_left, In-append_right, str_eq, length, ltb, ◌==◌, arith,
}
use longctx.Watcher.{
  WatcherEvent, WatcherConfig, ProjectState, Watcher, get_state, add_project, remove_project,
  pause_project, resume_project, note_query, push, enqueue_event, Work, walk, apply, is_due, taken,
  work_for, ready, drain_ready, is_dropped, cleanup_tick,
}

-- The steps of the watcher that neither drop the project nor register it again, with the work that the
-- worker takes.
pub data Step (name : String) : Watcher → List Work → Watcher → Type 0 where
  enqueue : (w : Watcher) (now : ℕ) (e : WatcherEvent) → Step name w [] (enqueue_event w now e)
  drain : (w : Watcher) (now : ℕ) → Step name w (drain_ready w now).1 (drain_ready w now).0
  pause : (w : Watcher) (project : String) → Step name w [] (pause_project w project)
  resume : (w : Watcher) (project : String) → Step name w [] (resume_project w project)
  query :
      (w : Watcher) (now : ℕ) (project : Option String) → Step name w [] (note_query w now project)
  add :
      (w : Watcher) (now : ℕ) (project root : String)
      → str_eq name project ≡ false
      → Step name w [] (add_project w now project root)
  remove :
      (w : Watcher) (project : String)
      → str_eq name project ≡ false
      → Step name w [] (remove_project w project)
  cleanup :
      (w : Watcher) (now : ℕ) (exists : String → Bool)
      → ((s : ProjectState)
          → get_state name w.states ≡ some s
          → is_dropped w.cfg now (exists s.root_path) s ≡ false)
      → Step name w [] (cleanup_tick w now exists).0

pub data Run (name : String) (w : Watcher) : List Work → Watcher → Type 0 where
  here : Run name w [] w
  next :
      {v u : Watcher} {done more : List Work}
      → Run name w done v
      → Step name v more u
      → Run name w (done ++ more) u

-- The event waits in the queue, or a walk is due.
abbrev pub Waits : WatcherEvent → ProjectState → Type 0
Waits e s = In e s.queue ⊎ (s.rescan_pending ≡ true)

abbrev pub IsPending : String → WatcherEvent → Watcher → Type 0
IsPending name e w = (s : ProjectState) × (get_state name w.states ≡ some s) × Waits e s

-- The work takes the event up: it is in the batch, or the root is walked.
abbrev pub TakesUp : String → WatcherEvent → Work → Type 0
TakesUp name e (walk project) = project ≡ name
TakesUp name e (apply project events) = (project ≡ name) × In e events

abbrev pub IsTakenUp : String → WatcherEvent → List Work → Type 0
IsTakenUp name e done = (work : Work) × In work done × TakesUp name e work

pub push_cases :
    (cfg : WatcherConfig) (now : ℕ) (e : WatcherEvent) (s : ProjectState)
    → ((push cfg now e s).rescan_pending ≡ true)
      ⊎ ((push cfg now e s).queue ≡ s.queue ++ e ∷ []) × (s.rescan_pending ≡ false)
unfolding push
push_cases cfg now e s = elim (Bool-cases s.rescan_pending) [
  | inl storm ↦ inl (ground arith)
  | inr calm ↦ elim (Bool-cases (ltb cfg.queue_size (length (s.queue ++ e ∷ [])))) [
    | inl full ↦ inl (ground arith)
    | inr room ↦ inr (ground arith, calm)
  ]
]

pub push-Waits :
    (cfg : WatcherConfig) (now : ℕ) (e f : WatcherEvent) (s : ProjectState)
    → Waits e s
    → Waits e (push cfg now f s)
push-Waits cfg now e f s h = elim (push_cases cfg now f s) [
  | inl storm ↦ inr storm
  | inr (queue, calm) ↦ elim h [
    | inl m ↦ inl (rw queue (In-append_left e s.queue (f ∷ []) m))
    | inr storm ↦ absurd (ground arith)
  ]
]

pub push-Waits_self :
    (cfg : WatcherConfig) (now : ℕ) (e : WatcherEvent) (s : ProjectState)
    → Waits e (push cfg now e s)
push-Waits_self cfg now e s = elim (push_cases cfg now e s) [
  | inl storm ↦ inr storm
  | inr (queue, calm) ↦ inl (rw queue (In-append_right e s.queue (e ∷ []) (inl refl)))
]

pub push-name :
    (cfg : WatcherConfig) (now : ℕ) (e : WatcherEvent) (s : ProjectState)
    → (push cfg now e s).name ≡ s.name
unfolding push
push-name cfg now e s = ground arith

In-not_empty : {A : Type 0} (a : A) (xs : List A) → In a xs → (length xs == 0) ≡ false
In-not_empty a [] m = absurd m
In-not_empty a (x ∷ xs) m = ground arith

pub work_for_cases :
    (cfg : WatcherConfig) (now : ℕ) (e : WatcherEvent) (s : ProjectState)
    → Waits e s
    → Waits e (taken cfg now s)
      ⊎ ((work_for cfg now s ≡ walk s.name ∷ [])
          ⊎ ((work_for cfg now s ≡ apply s.name s.queue ∷ []) × In e s.queue))
unfolding work_for taken
work_for_cases cfg now e s h = elim (Bool-cases s.rescan_pending) [
  | inl storm ↦ inr (inl (ground arith))
  | inr calm ↦ elim h [
    | inr storm ↦ absurd (ground arith)
    | inl m ↦ elim (Bool-cases (is_due cfg now s)) [
      | inl due ↦ inr (inr (rw (calm, due, In-not_empty e s.queue m) refl, m))
      | inr early ↦ inl (inl (rw early m))
    ]
  ]
]

pub In-ready :
    (cfg : WatcherConfig) (now : ℕ) (work : Work) (s : ProjectState) (ss : List ProjectState)
    → In s ss
    → In work (work_for cfg now s)
    → In work (ready cfg now ss)
unfolding ready
In-ready cfg now work s [] m h = absurd m
In-ready cfg now work s (t ∷ ts) (inl e) h =
    In-append_left work (work_for cfg now t) (ready cfg now ts) (rw e h)
In-ready cfg now work s (t ∷ ts) (inr m) h =
    In-append_right work (work_for cfg now t) (ready cfg now ts) (In-ready cfg now work s ts m h)

pub taken-name :
    (cfg : WatcherConfig) (now : ℕ) (s : ProjectState) → (taken cfg now s).name ≡ s.name
unfolding taken
taken-name cfg now s = refl
