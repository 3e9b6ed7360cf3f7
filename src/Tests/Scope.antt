-- ===== src/Tests/Scope.antt =====
-- A session of three turns, over the files of one directory.
use longctx.Base.{
  ◌+◌, ◌≤◌, ◌<◌, ◌≡◌, refl, arith, true, false, none, some, List, [], ◌∷◌, ◌++◌, any, length,
  select, In, Option,
}
use longctx.Base.Result.{ok}
use longctx.Scope.Paths.{FilePath, is_under, parents, path_str}
use longctx.Scope.Cluster.{ClusterResult, unique_from, qualifying, cluster_paths, all_clusters}
use longctx.Scope.Cluster.Best.{Picked, cluster_paths-Picked}
use longctx.Scope.Tracker.{
  watch, speculative, active, CandidateState, ScopeClusterTracker, TickResult, init, is_active,
  is_alive, refreshed, previous_phase, drift, speculate, activate, advance, update_phases,
  demote_idle, observe,
}
use longctx.Scope.Tracker.Steps.{OnLadder}
use longctx.Scope.Tracker.Session.{Session, begin, turn, observe-IsSafe}
use longctx.Scope.Tracker.Idle.{Turns, run, run-Idle}

abbrev dir : FilePath
dir = "/" ∷ "w" ∷ "p" ∷ []

abbrev first_paths : List FilePath
first_paths = ("/" ∷ "w" ∷ "p" ∷ "a" ∷ []) ∷ ("/" ∷ "w" ∷ "p" ∷ "b" ∷ []) ∷ []

abbrev more_paths : List FilePath
more_paths = ("/" ∷ "w" ∷ "p" ∷ "b" ∷ []) ∷ ("/" ∷ "q" ∷ []) ∷ []

abbrev start : ScopeClusterTracker
start = record {
  spec_min = 2;
  active_min = 3;
  active_min_turns = 2;
  demote_after = 2;
  drift_gap = 1;
  turn = 0;
  candidates = [];
  paths_seen = [];
}

start_run : init 2 3 2 2 1 ≡ ok start
unfolding init
start_run = refl

cluster_run :
    (cluster_paths first_paths 2 2
      ≡ ok (some (record { ancestor = dir; unique_files = 2; total_paths = 2 })))
    × (cluster_paths first_paths 3 2 ≡ ok none)
    × (all_clusters first_paths 2
        ≡ ok (
            record { ancestor = dir; unique_files = 2; total_paths = 2 }
            ∷ record { ancestor = "/" ∷ "w" ∷ []; unique_files = 2; total_paths = 2 }
            ∷ record { ancestor = "/" ∷ []; unique_files = 2; total_paths = 2 }
            ∷ []))
unfolding cluster_paths all_clusters qualifying parents path_str
cluster_run = (refl, refl, refl)

cluster_paths-Picked_example :
    (picked : Option ClusterResult) × (cluster_paths first_paths 2 2 ≡ ok picked)
    × Picked (unique_from [] first_paths) 2 2 picked
cluster_paths-Picked_example = cluster_paths-Picked first_paths 2 2 (omega arith) (omega arith)

-- The directory is noticed in the first turn, and worked in after the second.
abbrev noticed : CandidateState
noticed = record {
  ancestor = dir;
  phase = speculative;
  unique_files = 2;
  first_seen_turn = 1;
  last_seen_turn = 1;
  promoted_at = none;
  demoted_at = none;
}

abbrev after_first : ScopeClusterTracker
after_first = record start { turn = 1; candidates = noticed ∷ []; paths_seen = first_paths }

abbrev first_tick : TickResult
first_tick = record {
  active_one = none;
  speculatives = noticed ∷ [];
  transitions = record { path = dir; before = watch; after = speculative } ∷ [];
  at_turn = 1;
}

first_run : observe start 7 first_paths ≡ ok (after_first, first_tick)
unfolding observe cluster_paths qualifying parents path_str update_phases advance refreshed
    previous_phase drift speculate activate demote_idle
first_run = refl

second_run : observe after_first 9 more_paths ≡ (
    let c : CandidateState = record noticed {
      phase = active;
      last_seen_turn = 2;
      promoted_at = some 9;
    } in
    ok (
      record after_first {
        turn = 2;
        candidates = c ∷ [];
        paths_seen = first_paths ++ ("/" ∷ "q" ∷ []) ∷ [];
      },
      record {
        active_one = some c;
        speculatives = [];
        transitions = record { path = dir; before = speculative; after = active } ∷ [];
        at_turn = 2;
      },
    ))
unfolding observe cluster_paths qualifying parents path_str update_phases advance refreshed
    previous_phase drift speculate activate demote_idle
second_run = refl

session : Session start after_first
session = turn 7 first_paths first_tick begin first_run

observe-IsSafe_example :
    (u : ScopeClusterTracker) × (tick : TickResult) × (observe after_first 9 more_paths
      ≡ ok (u, tick))
    × (length (select is_active u.candidates) ≤ 1)
    × ((c : CandidateState)
        → In c u.candidates
        → is_alive c ≡ true
        → (u.spec_min ≤ c.unique_files) × (u.turn < c.last_seen_turn + u.demote_after))
    × OnLadder tick.transitions
observe-IsSafe_example = observe-IsSafe 2 3 2 2 1 start after_first 9 more_paths start_run session

abbrev elsewhere : Turns
elsewhere = (9, ("/" ∷ "q" ∷ []) ∷ []) ∷ (11, []) ∷ []

is_under_run : any (is_under dir) (("/" ∷ "q" ∷ []) ∷ []) ≡ false
unfolding parents
is_under_run = refl

run-Idle_example :
    (t : ScopeClusterTracker) × (run after_first elsewhere ≡ ok t)
    × ((c : CandidateState) → In c t.candidates → c.ancestor ≡ dir → is_alive c ≡ false)
run-Idle_example =
    run-Idle 2 3 2 2 1 start after_first dir elsewhere start_run session (is_under_run, (refl, tt))
      (omega arith)
