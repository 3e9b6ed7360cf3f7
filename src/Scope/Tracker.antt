-- ===== src/Scope/Tracker.antt =====
-- scope/tracker.py: the phases that the directories of a session go through. A turn observes the paths
-- that it mentions at the time `now`; the set of all paths seen is kept in the order of their first
-- mention.
pub mod Candidates
pub mod Steps
pub mod Safe
pub mod Session
pub mod Idle
use longctx.Base.{
  ℕ, ◌+◌, ◌-◌, ◌≡◌, refl, Bool, true, false, not, ◌&&◌, ◌||◌, Option, none, some, List, [], ◌∷◌,
  ◌++◌, leb, any, find, select, if◌then◌else◌,
}
use longctx.Base.Result.{Result, ok, raise, value_error, ◌>>=◌, ◌>>◌, require}
use longctx.Scope.Paths.{FilePath, path_eq, is_under}
use longctx.Scope.Cluster.{ClusterResult, unique_from, cluster_paths}

pub data Phase : Type 0 where
  watch speculative active demoted : Phase

pub record CandidateState : Type 0 where
  pub ancestor : FilePath
  pub phase : Phase
  pub unique_files : ℕ
  pub first_seen_turn : ℕ
  pub last_seen_turn : ℕ
  pub promoted_at : Option ℕ
  pub demoted_at : Option ℕ

-- One entry of `transitions`.
pub record Transition : Type 0 where
  pub path : FilePath
  pub before : Phase
  pub after : Phase

pub record ScopeClusterTracker : Type 0 where
  pub spec_min : ℕ
  pub active_min : ℕ
  pub active_min_turns : ℕ
  pub demote_after : ℕ
  pub drift_gap : ℕ
  pub turn : ℕ
  pub candidates : List CandidateState
  pub paths_seen : List FilePath

pub record TickResult : Type 0 where
  pub active_one : Option CandidateState
  pub speculatives : List CandidateState
  pub transitions : List Transition
  pub at_turn : ℕ

unfoldable pub init : ℕ → ℕ → ℕ → ℕ → ℕ → Result ScopeClusterTracker
init speculate_min_files active_min_files active_min_turns demote_after_idle_turns gap = do
  require (leb 1 speculate_min_files) value_error
  require (leb speculate_min_files active_min_files) value_error
  require (leb 1 demote_after_idle_turns) value_error
  ok (record {
    spec_min = speculate_min_files;
    active_min = active_min_files;
    active_min_turns = active_min_turns;
    demote_after = demote_after_idle_turns;
    drift_gap = gap;
    turn = 0;
    candidates = [];
    paths_seen = [];
  })

abbrev pub is_active : CandidateState → Bool
is_active c = elim c.phase [ active ↦ true | _ ↦ false ]

abbrev pub is_speculative : CandidateState → Bool
is_speculative c = elim c.phase [ speculative ↦ true | _ ↦ false ]

abbrev pub is_alive : CandidateState → Bool
is_alive c = is_speculative c || is_active c

-- `_active_locked`
abbrev pub active_locked : List CandidateState → Option CandidateState
active_locked = find is_active

-- `self._candidates.get(anc)`, and the entry put back, or added at the end.
abbrev pub get_candidate : FilePath → List CandidateState → Option CandidateState
get_candidate anc = find (λ c. path_eq c.ancestor anc)

abbrev pub put_candidate : CandidateState → List CandidateState → List CandidateState
put_candidate c [] = c ∷ []
put_candidate c (d ∷ ds) =
    let rest = put_candidate c ds in if path_eq d.ancestor c.ancestor then c ∷ ds else d ∷ rest

-- The entry of the top cluster, as it is when the promotion starts: new, or with the turn's evidence,
-- and back in the phase `watch` if it was demoted.
unfoldable pub refreshed : ScopeClusterTracker → ClusterResult → CandidateState
refreshed self top = elim (get_candidate top.ancestor self.candidates) [
  | none ↦ record {
    ancestor = top.ancestor;
    phase = watch;
    unique_files = top.unique_files;
    first_seen_turn = self.turn;
    last_seen_turn = self.turn;
    promoted_at = none;
    demoted_at = none;
  }
  | some c ↦
      let c' = record c { unique_files = top.unique_files; last_seen_turn = self.turn } in
      elim c.phase [ demoted ↦ record c' { phase = watch; first_seen_turn = self.turn } | _ ↦ c' ]
]

-- `prev_phase`
unfoldable pub previous_phase : ScopeClusterTracker → ClusterResult → Phase
previous_phase self top = elim (get_candidate top.ancestor self.candidates) [
  | none ↦ watch
  | some c ↦ c.phase
]

abbrev demote : CandidateState → ℕ → CandidateState
demote c now = record c { phase = demoted; demoted_at = some now }

-- The active candidate steps aside for one with `gap` files more.
unfoldable pub drift :
    ScopeClusterTracker
    → ℕ
    → CandidateState
    → List CandidateState
    → List CandidateState × List Transition
drift self now cand cs = elim (active_locked cs) [
  | none ↦ (cs, [])
  | some other ↦
      if not (path_eq other.ancestor cand.ancestor)
        && leb (other.unique_files + self.drift_gap) cand.unique_files
        && leb self.active_min cand.unique_files
      then (
        put_candidate (demote other now) cs,
        record { path = other.ancestor; before = other.phase; after = demoted } ∷ [],
      )
      else (cs, [])
]

-- The promotion ladder: its first step, and its second.
unfoldable pub speculate :
    ScopeClusterTracker → Phase → CandidateState → CandidateState × List Transition
speculate self prev cand = elim cand.phase [
  | watch ↦
      if leb self.spec_min cand.unique_files
      then (
        record cand { phase = speculative },
        record { path = cand.ancestor; before = prev; after = speculative } ∷ [],
      )
      else (cand, [])
  | _ ↦ (cand, [])
]

abbrev should_activate : ScopeClusterTracker → CandidateState → Bool
should_activate self cand =
    leb self.active_min cand.unique_files
    || leb self.active_min_turns (self.turn - cand.first_seen_turn + 1)

unfoldable pub activate :
    ScopeClusterTracker
    → ℕ
    → CandidateState
    → List CandidateState
    → List CandidateState × List Transition
activate self now cand cs = elim cand.phase [
  | speculative ↦
      let free : Bool = elim (active_locked cs) [
        | none ↦ true
        | some other ↦ path_eq other.ancestor cand.ancestor
      ] in
      if should_activate self cand && free
      then (
        put_candidate (record cand { phase = active; promoted_at = some now }) cs,
        record { path = cand.ancestor; before = speculative; after = active } ∷ [],
      )
      else (cs, [])
  | _ ↦ (cs, [])
]

-- The state machine, where the top cluster has fresh evidence.
unfoldable pub advance :
    ScopeClusterTracker → ℕ → ClusterResult → List CandidateState × List Transition
unfolding refreshed previous_phase drift speculate activate
advance self now top =
    let cand = refreshed self top in
    let (cs, stepped_aside) = drift self now cand (put_candidate cand self.candidates) in
    let (cand', raised) = speculate self (previous_phase self top) cand in
    let (cs', activated) = activate self now cand' (put_candidate cand' cs) in
    (cs', stepped_aside ++ (raised ++ activated))

unfoldable pub update_phases :
    ScopeClusterTracker
    → ℕ
    → Option ClusterResult
    → List FilePath
    → List CandidateState × List Transition
unfolding advance
update_phases self now none touched = (self.candidates, [])
update_phases self now (some top) touched =
    if any (is_under top.ancestor) touched then advance self now top else (self.candidates, [])

abbrev pub is_idle : ScopeClusterTracker → CandidateState → Bool
is_idle self c = is_alive c && leb self.demote_after (self.turn - c.last_seen_turn)

unfoldable pub demote_idle :
    ScopeClusterTracker → ℕ → List CandidateState → List CandidateState × List Transition
demote_idle self now [] = ([], [])
demote_idle self now (c ∷ cs) =
    let (ds, ts) = demote_idle self now cs in
    if is_idle self c
    then (demote c now ∷ ds, record { path = c.ancestor; before = c.phase; after = demoted } ∷ ts)
    else (c ∷ ds, ts)

-- The tracker at the start of the turn.
abbrev pub next_turn : ScopeClusterTracker → List FilePath → ScopeClusterTracker
next_turn self paths = record self {
  turn = self.turn + 1;
  paths_seen = unique_from self.paths_seen paths;
}

unfoldable pub observe :
    ScopeClusterTracker → ℕ → List FilePath → Result (ScopeClusterTracker × TickResult)
unfolding update_phases demote_idle
observe self now paths_this_turn = do
  let t = next_turn self paths_this_turn
  top ← cluster_paths t.paths_seen t.spec_min 2
  let (cs, moved) = update_phases t now top paths_this_turn
  let (cs', dropped) = demote_idle t now cs
  ok (
    record t { candidates = cs' },
    record {
      active_one = active_locked cs';
      speculatives = select is_speculative cs';
      transitions = moved ++ dropped;
      at_turn = t.turn;
    },
  )
