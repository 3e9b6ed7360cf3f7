-- ===== src/Scope/Tracker/Steps.antt =====
-- scope/tracker.py: the steps on the candidates, by cases.
use longctx.Base.{
  ℕ, ◌+◌, ◌≤◌, ◌≡◌, ◌≢◌, refl, true, not, ◌&&◌, ◌⊎◌, inl, inr, Bool-cases, Option-cases, none, some,
  List, [], ◌∷◌, In, find-In, All, arith, leb,
}
use longctx.Scope.Paths.{path_eq, path_eq_iff}
use longctx.Scope.Cluster.{ClusterResult}
use longctx.Scope.Tracker.{
  Phase, watch, speculative, active, demoted, CandidateState, Transition, ScopeClusterTracker,
  is_active, is_alive, active_locked, get_candidate, put_candidate, refreshed, demote, drift,
  speculate, should_activate, activate,
}
use longctx.Scope.Tracker.Candidates.{
  HasDistinctKeys, HasOneActive, put-HasDistinctKeys, put-HasOneActive, In-put,
  get_candidate-ancestor,
}

-- What every step on the candidates keeps: one entry for each ancestor, one active at most, and none in
-- use that has too few files, or was seen later than now.
pub record Held (spec_min turn : ℕ) (cs : List CandidateState) : Type 0 where
  pub distinct : HasDistinctKeys cs
  pub one : HasOneActive cs
  pub evidence : (c : CandidateState) → In c cs → is_alive c ≡ true → spec_min ≤ c.unique_files
  pub seen : (c : CandidateState) → In c cs → is_alive c ≡ true → c.last_seen_turn ≤ turn

pub put-Held :
    (spec_min turn : ℕ) (c : CandidateState) (cs : List CandidateState)
    → Held spec_min turn cs
    → spec_min ≤ c.unique_files
    → c.last_seen_turn ≤ turn
    → (is_active c ≡ true
        → (d : CandidateState) → In d cs
        → is_active d ≡ true
        → d.ancestor ≡ c.ancestor)
    → Held spec_min turn (put_candidate c cs)
put-Held spec_min turn c cs h enough late alone = record {
  distinct = put-HasDistinctKeys c cs h.distinct;
  one = put-HasOneActive c cs h.one alone;
  evidence =
      λ d m on. elim (In-put d c cs m) [ inl e ↦ rw (← e) enough | inr old ↦ h.evidence d old on ];
  seen = λ d m on. elim (In-put d c cs m) [ inl e ↦ rw (← e) late | inr old ↦ h.seen d old on ];
}

-- The entry of the top cluster.
pub record IsRefreshed (self : ScopeClusterTracker) (top : ClusterResult) (cand : CandidateState)
    : Type 0 where
  pub ancestor_kept : cand.ancestor ≡ top.ancestor
  pub counted : cand.unique_files ≡ top.unique_files
  pub seen_now : cand.last_seen_turn ≡ self.turn
  pub was_active :
      is_active cand ≡ true
      → (c : CandidateState) × In c self.candidates
        × (is_active c ≡ true)
        × (c.ancestor ≡ top.ancestor)

pub refreshed-IsRefreshed :
    (self : ScopeClusterTracker) (top : ClusterResult) → IsRefreshed self top (refreshed self top)
unfolding refreshed
refreshed-IsRefreshed self top = elim (Option-cases (get_candidate top.ancestor self.candidates)) [
  | inl new ↦ record {
    ancestor_kept = ground arith;
    counted = ground arith;
    seen_now = ground arith;
    was_active = λ on. absurd (ground arith);
  }
  | inr (c, found) ↦
      let (m, named) = find-In (λ c. path_eq c.ancestor top.ancestor) c self.candidates found in
      let same : c.ancestor ≡ top.ancestor =
        get_candidate-ancestor top.ancestor c self.candidates found in
      record {
        ancestor_kept = ground arith;
        counted = ground arith;
        seen_now = ground arith;
        was_active = λ on. (c, m, ground arith, same);
      }
]

Phase-discrete : Discrete Phase
Phase-discrete = hlevel

-- The transitions that a tracker may report.
pub data Ladder : Phase → Phase → Type 0 where
  notice : Ladder watch speculative
  revive : Ladder demoted speculative
  confirm : Ladder speculative active
  retire : Ladder active demoted
  drop : Ladder speculative demoted

abbrev pub OnLadder : List Transition → Type 0
OnLadder = All (λ t. Ladder t.before t.after)

pub active_phase : (c : CandidateState) → is_active c ≡ true → c.phase ≡ active
active_phase c on = ground arith

pub active_locked-In :
    (cs : List CandidateState) (other : CandidateState)
    → active_locked cs ≡ some other
    → In other cs × (is_active other ≡ true)
active_locked-In cs other found = find-In is_active other cs found

pub drift_cases :
    (self : ScopeClusterTracker) (now : ℕ) (cand : CandidateState) (cs : List CandidateState)
    → (drift self now cand cs ≡ (cs, []))
      ⊎ ((other : CandidateState) × (active_locked cs ≡ some other)
          × (drift self now cand cs ≡ (
            put_candidate (demote other now) cs,
            record { path = other.ancestor; before = other.phase; after = demoted } ∷ [],
          )))
unfolding drift
drift_cases self now cand cs = elim (Option-cases (active_locked cs)) [
  | inl nobody ↦ inl (ground arith)
  | inr (other, found) ↦
      elim (Bool-cases (
        not (path_eq other.ancestor cand.ancestor)
        && leb (other.unique_files + self.drift_gap) cand.unique_files
        && leb self.active_min cand.unique_files)) [
          | inl weaker ↦ inr (other, found, rw (found, drift) (rw weaker refl))
          | inr stays ↦ inl (rw (found, drift) (rw stays refl))
        ]
]

pub phase_cases : (p q : Phase) → (p ≡ q) ⊎ (p ≢ q)
phase_cases p q = elim (Phase-discrete p q) [ yes e ↦ inl e | no n ↦ inr n ]

pub speculate_cases :
    (self : ScopeClusterTracker) (prev : Phase) (cand : CandidateState)
    → (speculate self prev cand ≡ (cand, []))
      ⊎ ((cand.phase ≡ watch)
          × (speculate self prev cand ≡ (
            record cand { phase = speculative },
            record { path = cand.ancestor; before = prev; after = speculative } ∷ [],
          )))
unfolding speculate
speculate_cases self prev cand = elim (phase_cases cand.phase watch) [
  | inl w ↦ elim (Bool-cases (leb self.spec_min cand.unique_files)) [
    | inl enough ↦ inr (w, ground arith)
    | inr few ↦ inl (ground arith)
  ]
  | inr other ↦ inl (ground arith)
]

pub activate_cases :
    (self : ScopeClusterTracker) (now : ℕ) (cand : CandidateState) (cs : List CandidateState)
    → (activate self now cand cs ≡ (cs, []))
      ⊎ (((active_locked cs ≡ none)
            ⊎ ((other : CandidateState) × (active_locked cs ≡ some other)
                × (other.ancestor ≡ cand.ancestor)))
          × (activate self now cand cs ≡ (
            put_candidate (record cand { phase = active; promoted_at = some now }) cs,
            record { path = cand.ancestor; before = speculative; after = active } ∷ [],
          )))
unfolding activate
activate_cases self now cand cs = elim (Bool-cases (should_activate self cand)) [
  | inl ready ↦ elim (phase_cases cand.phase speculative) [
    | inl here ↦ elim (Option-cases (active_locked cs)) [
      | inl nobody ↦ inr (inl nobody, ground arith)
      | inr (other, found) ↦ elim (Bool-cases (path_eq other.ancestor cand.ancestor)) [
        | inl same ↦
            inr
              (inr (other, found, (path_eq_iff other.ancestor cand.ancestor).0 same), ground arith)
        | inr taken ↦ inl (ground arith)
      ]
    ]
    | inr elsewhere ↦ inl (ground arith)
  ]
  | inr waits ↦ inl (ground arith)
]
