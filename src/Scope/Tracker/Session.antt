-- ===== src/Scope/Tracker/Session.antt =====
-- A session: turn after turn, from the tracker that the constructor returns.
use longctx.Base.{
  ℕ, ◌+◌, ◌≤◌, ◌<◌, ◌≡◌, refl, sym, ap, ◌∙◌, true, Option, none, some, List, [], ◌++◌, length,
  select, In, All-append, arith, leb,
}
use longctx.Base.Result.{ok, value_error, require-eq-ok, ok_injective}
use longctx.Scope.Paths.{FilePath}
use longctx.Scope.Cluster.{ClusterResult, unique_from}
use longctx.Scope.Cluster.Best.{Picked, cluster_paths-Picked}
use longctx.Scope.Tracker.{
  CandidateState, ScopeClusterTracker, TickResult, init, is_active, is_alive, active_locked,
  is_speculative, update_phases, demote_idle, next_turn, observe,
}
use longctx.Scope.Tracker.Candidates.{actives-le}
use longctx.Scope.Tracker.Steps.{Held, Ladder, OnLadder}
use longctx.Scope.Tracker.Safe.{
  update_phases-Held, demote_idle-HasDistinctKeys, In-demote_idle, demote_idle-OnLadder,
}

-- Between two turns: what the steps keep, and nothing in use is idle.
pub record IsSafe (self : ScopeClusterTracker) : Type 0 where
  pub held : Held self.spec_min self.turn self.candidates
  pub recent :
      (c : CandidateState)
      → In c self.candidates
      → is_alive c ≡ true
      → self.turn < c.last_seen_turn + self.demote_after
  pub some_files : 1 ≤ self.spec_min
  pub some_turns : 1 ≤ self.demote_after

pub init-IsSafe : (a b c d e : ℕ) (s : ScopeClusterTracker) → init a b c d e ≡ ok s → IsSafe s
unfolding init
init-IsSafe a b c d e s h =
    let (files, h1) = require-eq-ok (leb 1 a) value_error _ h in
    let (_, h2) = require-eq-ok (leb a b) value_error _ h1 in
    let (turns, h3) = require-eq-ok (leb 1 d) value_error _ h2 in
    let s' : ScopeClusterTracker = record {
      spec_min = a;
      active_min = b;
      active_min_turns = c;
      demote_after = d;
      drift_gap = e;
      turn = 0;
      candidates = [];
      paths_seen = [];
    } in
    let safe : IsSafe s' = record {
      held = record {
        distinct = tt;
        one = λ c d m. absurd m;
        evidence = λ c m. absurd m;
        seen = λ c m. absurd m;
      };
      recent = λ c m. absurd m;
      some_files = ground arith;
      some_turns = ground arith;
    } in
    rw (← ok_injective s' s h3) safe

-- What is known after a turn.
pub record IsTick (self t : ScopeClusterTracker) (tick : TickResult) : Type 0 where
  pub safe : IsSafe t
  pub next : t.turn ≡ self.turn + 1
  pub same_bounds : (t.spec_min ≡ self.spec_min) × (t.demote_after ≡ self.demote_after)
  pub on_ladder : OnLadder tick.transitions

Picked-files :
    (unique : List FilePath) (min_files min_depth : ℕ) (top : Option ClusterResult)
    → Picked unique min_files min_depth top
    → (r : ClusterResult) → top ≡ some r
    → min_files ≤ r.unique_files
Picked-files unique min_files min_depth none picked r e = absurd (ground arith)
Picked-files unique min_files min_depth (some k) picked r e =
    let same : k ≡ r = ground arith in
    let enough : min_files ≤ k.unique_files = picked.enough in rw (← same) enough

Held-next :
    (spec_min turn : ℕ) (cs : List CandidateState)
    → Held spec_min turn cs
    → Held spec_min (turn + 1) cs
Held-next spec_min turn cs h = record {
  distinct = h.distinct;
  one = h.one;
  evidence = h.evidence;
  seen = λ c m on. omega (arith, h.seen c m on);
}

pub observe-IsTick :
    (self : ScopeClusterTracker) (now : ℕ) (paths : List FilePath)
    → IsSafe self
    → (t : ScopeClusterTracker) × (tick : TickResult) × (observe self now paths ≡ ok (t, tick))
      × IsTick self t tick
unfolding observe
observe-IsTick self now paths safe =
    let t = next_turn self paths in
    let (top, run, picked) =
      cluster_paths-Picked t.paths_seen t.spec_min 2 safe.some_files (omega arith) in
    let (h, up) =
      update_phases-Held t now top paths
        (Held-next self.spec_min self.turn self.candidates safe.held)
        (Picked-files (unique_from [] t.paths_seen) t.spec_min 2 top picked) in
    let cs = (update_phases t now top paths).0 in
    let cs' = (demote_idle t now cs).0 in
    (
      record t { candidates = cs' },
      record {
        active_one = active_locked cs';
        speculatives = select is_speculative cs';
        transitions = (update_phases t now top paths).1 ++ (demote_idle t now cs).1;
        at_turn = t.turn;
      },
      rw run refl,
      record {
        safe = record {
          held = record {
            distinct = demote_idle-HasDistinctKeys t now cs h.distinct;
            one = λ c d mc md onc ond.
                h.one c d (In-demote_idle t now c cs mc (ground arith)).0
                  (In-demote_idle t now d cs md (ground arith)).0 onc ond;
            evidence = λ c m on. h.evidence c (In-demote_idle t now c cs m on).0 on;
            seen = λ c m on. h.seen c (In-demote_idle t now c cs m on).0 on;
          };
          recent = λ c m on.
              let (there, busy) = In-demote_idle t now c cs m on in
              let late : c.last_seen_turn ≤ t.turn = h.seen c there on in ground arith;
          some_files = safe.some_files;
          some_turns = safe.some_turns;
        };
        next = refl;
        same_bounds = (refl, refl);
        on_ladder =
            All-append (λ t. Ladder t.before t.after) (update_phases t now top paths).1
              (demote_idle t now cs).1 up (demote_idle-OnLadder t now cs);
      },
    )

-- The trackers of a session that starts at `s`.
pub data Session (s : ScopeClusterTracker) : ScopeClusterTracker → Type 0 where
  begin : Session s s
  turn :
      {t u : ScopeClusterTracker} (now : ℕ) (paths : List FilePath) (tick : TickResult)
      → Session s t
      → observe t now paths ≡ ok (u, tick)
      → Session s u

pub Session-IsSafe : {s t : ScopeClusterTracker} → IsSafe s → Session s t → IsSafe t
Session-IsSafe h begin = h
Session-IsSafe h (turn {t} {u} now paths tick before run) =
    let (u', tick', run', next) = observe-IsTick t now paths (Session-IsSafe h before) in
    let same : u' ≡ u =
      ap (λ (k : ScopeClusterTracker × TickResult). k.0)
        (ok_injective (u', tick') (u, tick) (sym run' ∙ run)) in
    rw (← same) (next.safe)

-- At any point of a session that the constructor's checks let begin, the next turn succeeds whatever it
-- mentions. One candidate at most is active then; every candidate in use has enough files, and was seen
-- within the turns that may pass; and each transition is a step of the ladder.
pub observe-IsSafe :
    (speculate_min active_min active_turns idle_turns gap : ℕ) (s t : ScopeClusterTracker) (now : ℕ)
    (paths : List FilePath)
    → init speculate_min active_min active_turns idle_turns gap ≡ ok s
    → Session s t
    → (u : ScopeClusterTracker) × (tick : TickResult) × (observe t now paths ≡ ok (u, tick))
      × (length (select is_active u.candidates) ≤ 1)
      × ((c : CandidateState)
          → In c u.candidates
          → is_alive c ≡ true
          → (u.spec_min ≤ c.unique_files) × (u.turn < c.last_seen_turn + u.demote_after))
      × OnLadder tick.transitions
observe-IsSafe a b c d e s t now paths begun session =
    let (u, tick, run, next) =
      observe-IsTick t now paths (Session-IsSafe (init-IsSafe a b c d e s begun) session) in
    (
      u,
      tick,
      run,
      actives-le u.candidates next.safe.held.distinct next.safe.held.one,
      λ c m on. (next.safe.held.evidence c m on, next.safe.recent c m on),
      next.on_ladder,
    )
