-- ===== src/Scope/Tracker/Idle.antt =====
-- scope/tracker.py: a directory that the turns do not mention any more.
use longctx.Base.{
  ℕ, ◌+◌, ◌≤◌, ◌≡◌, ◌≢◌, refl, sym, ap, ◌∙◌, true, false, inl, inr, Bool-cases, Option, none, some,
  List, [], ◌∷◌, length, any, In, All, arith,
}
use longctx.Base.Result.{Result, ok, ◌>>=◌, ok_injective}
use longctx.Scope.Paths.{FilePath, is_under}
use longctx.Scope.Cluster.{ClusterResult}
use longctx.Scope.Cluster.Best.{cluster_paths-Picked}
use longctx.Scope.Tracker.{
  active, CandidateState, ScopeClusterTracker, TickResult, is_alive, put_candidate, refreshed,
  previous_phase, demote, drift, speculate, advance, update_phases, demote_idle, next_turn, init,
  observe,
}
use longctx.Scope.Tracker.Candidates.{In-put}
use longctx.Scope.Tracker.Steps.{refreshed-IsRefreshed, drift_cases, activate_cases}
use longctx.Scope.Tracker.Safe.{In-demote_idle, speculate_kept}
use longctx.Scope.Tracker.Session.{IsSafe, Session, init-IsSafe, Session-IsSafe, observe-IsTick}

-- A candidate of another directory than the top cluster's comes through as it was, or is given up.
advance-other :
    (self : ScopeClusterTracker) (now : ℕ) (top : ClusterResult) (c : CandidateState)
    → c.ancestor ≢ top.ancestor
    → In c (advance self now top).0
    → is_alive c ≡ true
    → In c self.candidates
unfolding advance
advance-other self now top c apart m on =
    let cand = refreshed self top in
    let named : cand.ancestor ≡ top.ancestor = (refreshed-IsRefreshed self top).ancestor_kept in
    let base = put_candidate cand self.candidates in
    let cand' = (speculate self (previous_phase self top) cand).0 in
    let named' : cand'.ancestor ≡ top.ancestor =
      (speculate_kept self (previous_phase self top) cand).0 ∙ named in
    let cs = (drift self now cand base).0 in
    let in_put : In c (put_candidate cand' cs) =
      elim (activate_cases self now cand' (put_candidate cand' cs)) [
        | inl same ↦ rw same at m
        | inr (_, e) ↦
            let m' : In c (
                put_candidate (record cand' { phase = active; promoted_at = some now })
                  (put_candidate cand' cs)) =
              rw e at m in
            elim (In-put c (record cand' { phase = active; promoted_at = some now })
              (put_candidate cand' cs) m') [
                | inl eq ↦ absurd (apart (ap (λ k. k.ancestor) (sym eq) ∙ named'))
                | inr there ↦ there
              ]
      ] in
    let in_cs : In c cs = elim (In-put c cand' cs in_put) [
      | inl eq ↦ absurd (apart (ap (λ k. k.ancestor) (sym eq) ∙ named'))
      | inr there ↦ there
    ] in
    let in_base : In c base = elim (drift_cases self now cand base) [
      | inl same ↦ rw same at in_cs
      | inr (other, _, e) ↦
          let m' : In c (put_candidate (demote other now) base) = rw e at in_cs in
          elim (In-put c (demote other now) base m') [
            | inl eq ↦ absurd (ground (arith, ap is_alive eq))
            | inr there ↦ there
          ]
    ] in
    elim (In-put c cand self.candidates in_base) [
      | inl eq ↦ absurd (apart (ap (λ k. k.ancestor) (sym eq) ∙ named))
      | inr there ↦ there
    ]

update_phases-quiet :
    (self : ScopeClusterTracker) (now : ℕ) (top : Option ClusterResult) (paths : List FilePath)
    (c : CandidateState)
    → any (is_under c.ancestor) paths ≡ false
    → In c (update_phases self now top paths).0
    → is_alive c ≡ true
    → In c self.candidates
unfolding update_phases
update_phases-quiet self now none paths c quiet m on = m
update_phases-quiet self now (some r) paths c quiet m on =
    elim (Bool-cases (any (is_under r.ancestor) paths)) [
      | inl fresh ↦
          let m' : In c (advance self now r).0 = rw fresh at m in
          advance-other self now r c
            (λ e.
              let busy : any (is_under c.ancestor) paths ≡ true = rw e fresh in
              absurd (ground arith))
            m' on
      | inr still ↦ rw still at m
    ]

abbrev pub Turns : Type 0
Turns = List (ℕ × List FilePath)

-- The turns of a session, one after the other.
unfoldable pub run : ScopeClusterTracker → Turns → Result ScopeClusterTracker
run self [] = ok self
run self ((now, paths) ∷ turns) = do (t, _) ← observe self now paths; run t turns

observe-candidates :
    (self t : ScopeClusterTracker) (now : ℕ) (paths : List FilePath) (tick : TickResult)
    → IsSafe self
    → observe self now paths ≡ ok (t, tick)
    → (top : Option ClusterResult) × ((demote_idle
          (next_turn self paths)
          now
          (update_phases (next_turn self paths) now top paths).0).0
        ≡ t.candidates)
unfolding observe
observe-candidates self t now paths tick safe done =
    let (top, found, _) =
      cluster_paths-Picked (next_turn self paths).paths_seen self.spec_min 2 safe.some_files
        (omega arith) in
    (
      top,
      ap (λ (k : ScopeClusterTracker × TickResult). k.0.candidates)
          (ok_injective _ (t, tick) (rw found at done)),
    )

-- Where no path of the turn lies under its directory, a candidate in use is as it was before.
observe-quiet :
    (self t : ScopeClusterTracker) (now : ℕ) (paths : List FilePath) (tick : TickResult)
    (c : CandidateState)
    → IsSafe self
    → observe self now paths ≡ ok (t, tick)
    → any (is_under c.ancestor) paths ≡ false
    → In c t.candidates
    → is_alive c ≡ true
    → In c self.candidates
observe-quiet self t now paths tick c safe done quiet m on =
    let (top, e) = observe-candidates self t now paths tick safe done in
    let m' : In c
        (demote_idle (next_turn self paths) now
          (update_phases (next_turn self paths) now top paths).0).0 =
      rw e m in
    update_phases-quiet (next_turn self paths) now top paths c quiet
      (In-demote_idle (next_turn self paths) now c
        (update_phases (next_turn self paths) now top paths).0 m' on).0
      on

run-quiet :
    (self : ScopeClusterTracker) (anc : FilePath) (turns : Turns)
    → IsSafe self
    → All (λ (turn : ℕ × List FilePath). any (is_under anc) turn.1 ≡ false) turns
    → (t : ScopeClusterTracker) × (run self turns ≡ ok t)
      × IsSafe t
      × (t.turn ≡ self.turn + length turns)
      × (t.demote_after ≡ self.demote_after)
      × ((c : CandidateState)
          → In c t.candidates
          → c.ancestor ≡ anc
          → is_alive c ≡ true
          → In c self.candidates)
unfolding run
run-quiet self anc [] safe quiet = (self, refl, safe, omega arith, refl, λ c m e on. m)
run-quiet self anc ((now, paths) ∷ turns) safe (quiet, rest) =
    let (u, tick, done, next) = observe-IsTick self now paths safe in
    let (t, finished, safe', at, bound, back) = run-quiet u anc turns next.safe rest in
    (
      t,
      rw done finished,
      safe',
      omega (arith, at, next.next),
      bound ∙ next.same_bounds.1,
      λ c m e on. observe-quiet self u now paths tick c safe done (rw e quiet) (back c m e on) on,
    )

-- From any state of a session, as many turns as may pass without a path under the directory of a
-- candidate, or more, end with the candidate in use no more: neither speculative nor active.
pub run-Idle :
    (speculate_min active_min active_turns idle_turns gap : ℕ) (s self : ScopeClusterTracker)
    (anc : FilePath) (turns : Turns)
    → init speculate_min active_min active_turns idle_turns gap ≡ ok s
    → Session s self
    → All (λ (turn : ℕ × List FilePath). any (is_under anc) turn.1 ≡ false) turns
    → self.demote_after ≤ length turns
    → (t : ScopeClusterTracker) × (run self turns ≡ ok t)
      × ((c : CandidateState) → In c t.candidates → c.ancestor ≡ anc → is_alive c ≡ false)
run-Idle a b c d e s self anc turns begun session quiet long =
    let safe : IsSafe self = Session-IsSafe (init-IsSafe a b c d e s begun) session in
    let (t, done, safe', at, bound, back) = run-quiet self anc turns safe quiet in
    (
      t,
      done,
      λ k m same. elim (Bool-cases (is_alive k)) [
        | inl on ↦
            absurd (
              omega (arith, safe'.recent k m on, safe.held.seen k (back k m same on) on, at, bound))
        | inr off ↦ off
      ],
    )
