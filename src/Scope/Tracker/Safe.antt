-- ===== src/Scope/Tracker/Safe.antt =====
-- What holds of a tracker between two turns.
use longctx.Base.{
  ℕ, ◌≤◌, ◌≡◌, refl, sym, ap, ◌∙◌, true, false, ◌⊎◌, inl, inr, Bool-cases, Option, none, some, List,
  [], ◌∷◌, any, In, All-append, arith,
}
use longctx.Scope.Paths.{FilePath, contains_path, is_under}
use longctx.Scope.Cluster.{ClusterResult}
use longctx.Scope.Tracker.{
  Phase, watch, speculative, active, demoted, CandidateState, ScopeClusterTracker, is_active,
  is_alive, put_candidate, refreshed, previous_phase, demote, drift, speculate, activate, advance,
  update_phases, is_idle, demote_idle,
}
use longctx.Scope.Tracker.Candidates.{HasDistinctKeys, In-put, put-In, active_locked-none, keys}
use longctx.Scope.Tracker.Steps.{
  Held, put-Held, IsRefreshed, refreshed-IsRefreshed, Ladder, OnLadder, notice, revive, confirm,
  retire, drop, active_phase, active_locked-In, phase_cases, drift_cases, speculate_cases,
  activate_cases,
}

drift-Held :
    (self : ScopeClusterTracker) (now spec_min turn : ℕ) (cand : CandidateState)
    (cs : List CandidateState)
    → Held spec_min turn cs
    → Held spec_min turn (drift self now cand cs).0
      × OnLadder (drift self now cand cs).1
      × ((d : CandidateState) → In d (drift self now cand cs).0 → is_active d ≡ true → In d cs)
drift-Held self now spec_min turn cand cs h = elim (drift_cases self now cand cs) [
  | inl same ↦ rw same (h, tt, λ d m on. m)
  | inr (other, found, e) ↦
      let (m, on) = active_locked-In cs other found in
      rw e (
        put-Held spec_min turn (demote other now) cs h (h.evidence other m (ground arith))
            (h.seen other m (ground arith)) (λ on'. absurd (ground arith)),
        (rw (active_phase other on) retire, tt),
        λ d m' on'. elim (In-put d (demote other now) cs m') [
          | inl gone ↦ absurd (ground (arith, ap is_active gone))
          | inr there ↦ there
        ],
      )
]

pub speculate_kept :
    (self : ScopeClusterTracker) (prev : Phase) (cand : CandidateState)
    → ((speculate self prev cand).0.ancestor ≡ cand.ancestor)
      × ((speculate self prev cand).0.unique_files ≡ cand.unique_files)
      × ((speculate self prev cand).0.last_seen_turn ≡ cand.last_seen_turn)
      × (is_active (speculate self prev cand).0 ≡ true → is_active cand ≡ true)
speculate_kept self prev cand = elim (speculate_cases self prev cand) [
  | inl same ↦ rw same (refl, refl, refl, λ on. on)
  | inr (w, e) ↦ rw e (refl, refl, refl, λ on. absurd (ground arith))
]

previous_phase_cases :
    (self : ScopeClusterTracker) (top : ClusterResult)
    → (refreshed self top).phase ≡ watch
    → (previous_phase self top ≡ watch) ⊎ (previous_phase self top ≡ demoted)
unfolding refreshed previous_phase
previous_phase_cases self top w = elim (phase_cases (previous_phase self top) demoted) [
  | inl e ↦ inr e
  | inr n ↦ inl (ground arith)
]

speculate-OnLadder :
    (self : ScopeClusterTracker) (top : ClusterResult)
    → OnLadder (speculate self (previous_phase self top) (refreshed self top)).1
speculate-OnLadder self top =
    elim (speculate_cases self (previous_phase self top) (refreshed self top)) [
      | inl same ↦ rw same tt
      | inr (w, e) ↦ elim (previous_phase_cases self top w) [
        | inl first ↦ rw e (rw first notice, tt)
        | inr again ↦ rw e (rw again revive, tt)
      ]
    ]

activate-Held :
    (self : ScopeClusterTracker) (now spec_min turn : ℕ) (cand : CandidateState)
    (cs : List CandidateState)
    → Held spec_min turn cs
    → spec_min ≤ cand.unique_files
    → cand.last_seen_turn ≤ turn
    → Held spec_min turn (activate self now cand cs).0 × OnLadder (activate self now cand cs).1
activate-Held self now spec_min turn cand cs h enough late =
    elim (activate_cases self now cand cs) [
      | inl same ↦ rw same (h, tt)
      | inr (free, e) ↦ rw e (
        put-Held spec_min turn (record cand { phase = active; promoted_at = some now }) cs h enough
            late
            (λ on d m on'. elim free [
              | inl nobody ↦ absurd (ground (arith, active_locked-none d cs nobody m))
              | inr (other, found, same) ↦
                  let (m', on'') = active_locked-In cs other found in
                  h.one d other m m' on' on'' ∙ same
            ]),
        (confirm, tt),
      )
    ]

advance-Held :
    (self : ScopeClusterTracker) (now : ℕ) (top : ClusterResult)
    → Held self.spec_min self.turn self.candidates
    → self.spec_min ≤ top.unique_files
    → Held self.spec_min self.turn (advance self now top).0 × OnLadder (advance self now top).1
unfolding advance
advance-Held self now top h enough =
    let cand = refreshed self top in
    let r : IsRefreshed self top cand = refreshed-IsRefreshed self top in
    let many : self.spec_min ≤ cand.unique_files = rw r.counted enough in
    let late : cand.last_seen_turn ≤ self.turn = rw (r.seen_now) (omega arith) in
    let alone : is_active cand ≡ true
        → (d : CandidateState) → In d self.candidates
        → is_active d ≡ true
        → d.ancestor ≡ cand.ancestor =
      λ on d m on'.
        let (c, mc, onc, same) = r.was_active on in
        h.one d c m mc on' onc ∙ same ∙ sym r.ancestor_kept in
    let base = put_candidate cand self.candidates in
    let held : Held self.spec_min self.turn base =
      put-Held self.spec_min self.turn cand self.candidates h many late alone in
    let (held', aside, stayed) = drift-Held self now self.spec_min self.turn cand base held in
    let (anc, files, seen, was_on) = speculate_kept self (previous_phase self top) cand in
    let cand' = (speculate self (previous_phase self top) cand).0 in
    let many' : self.spec_min ≤ cand'.unique_files = rw files many in
    let late' : cand'.last_seen_turn ≤ self.turn = rw seen late in
    let alone' : is_active cand' ≡ true
        → (d : CandidateState) → In d (drift self now cand base).0
        → is_active d ≡ true
        → d.ancestor ≡ cand'.ancestor =
      λ on d m on'.
        held.one d cand (stayed d m on') (put-In cand self.candidates) on' (was_on on) ∙ sym anc in
    let (final, up) =
      activate-Held self now self.spec_min self.turn cand'
        (put_candidate cand' (drift self now cand base).0)
        (put-Held self.spec_min self.turn cand' (drift self now cand base).0 held' many' late'
          alone')
        many' late' in
    (
      final,
      All-append (λ t. Ladder t.before t.after) (drift self now cand base).1 _ aside
          (All-append (λ t. Ladder t.before t.after)
            (speculate self (previous_phase self top) cand).1 _ (speculate-OnLadder self top) up),
    )

pub update_phases-Held :
    (self : ScopeClusterTracker) (now : ℕ) (top : Option ClusterResult) (touched : List FilePath)
    → Held self.spec_min self.turn self.candidates
    → ((r : ClusterResult) → top ≡ some r → self.spec_min ≤ r.unique_files)
    → Held self.spec_min self.turn (update_phases self now top touched).0
      × OnLadder (update_phases self now top touched).1
unfolding update_phases
update_phases-Held self now none touched h enough = (h, tt)
update_phases-Held self now (some r) touched h enough =
    elim (Bool-cases (any (is_under r.ancestor) touched)) [
      | inl fresh ↦ rw fresh (advance-Held self now r h (enough r refl))
      | inr quiet ↦ rw quiet (h, tt)
    ]

keys-demote_idle :
    (self : ScopeClusterTracker) (now : ℕ) (cs : List CandidateState)
    → keys (demote_idle self now cs).0 ≡ keys cs
unfolding demote_idle
keys-demote_idle self now [] = refl
keys-demote_idle self now (c ∷ cs) = elim (Bool-cases (is_idle self c)) [
  | inl idle ↦ rw idle (ap (◌∷◌ c.ancestor) (keys-demote_idle self now cs))
  | inr busy ↦ rw busy (ap (◌∷◌ c.ancestor) (keys-demote_idle self now cs))
]

pub demote_idle-HasDistinctKeys :
    (self : ScopeClusterTracker) (now : ℕ) (cs : List CandidateState)
    → HasDistinctKeys cs
    → HasDistinctKeys (demote_idle self now cs).0
unfolding demote_idle
demote_idle-HasDistinctKeys self now [] h = tt
demote_idle-HasDistinctKeys self now (c ∷ cs) (new, rest) =
    let new' : contains_path c.ancestor (keys (demote_idle self now cs).0) ≡ false =
      ap (contains_path c.ancestor) (keys-demote_idle self now cs) ∙ new in
    elim (Bool-cases (is_idle self c)) [
      | inl idle ↦ rw idle (new', demote_idle-HasDistinctKeys self now cs rest)
      | inr busy ↦ rw busy (new', demote_idle-HasDistinctKeys self now cs rest)
    ]

-- What is left in use was in use, and is not idle.
pub In-demote_idle :
    (self : ScopeClusterTracker) (now : ℕ) (d : CandidateState) (cs : List CandidateState)
    → In d (demote_idle self now cs).0
    → is_alive d ≡ true
    → In d cs × (is_idle self d ≡ false)
unfolding demote_idle
In-demote_idle self now d [] m on = absurd m
In-demote_idle self now d (c ∷ cs) m on = elim (Bool-cases (is_idle self c)) [
  | inl idle ↦
      let m' : (demote c now ≡ d) ⊎ In d (demote_idle self now cs).0 = rw idle at m in
      elim m' [
        | inl e ↦ absurd (ground (arith, ap is_alive e))
        | inr there ↦ let (i, b) = In-demote_idle self now d cs there on in (inr i, b)
      ]
  | inr busy ↦
      let m' : (c ≡ d) ⊎ In d (demote_idle self now cs).0 = rw busy at m in
      elim m' [
        | inl e ↦ (inl e, ap (is_idle self) (sym e) ∙ busy)
        | inr there ↦ let (i, b) = In-demote_idle self now d cs there on in (inr i, b)
      ]
]

idle_phase :
    (self : ScopeClusterTracker) (c : CandidateState)
    → is_idle self c ≡ true
    → Ladder c.phase demoted
idle_phase self c idle = elim (phase_cases c.phase active) [
  | inl e ↦ rw e retire
  | inr n ↦ let e : c.phase ≡ speculative = ground arith in rw e drop
]

pub demote_idle-OnLadder :
    (self : ScopeClusterTracker) (now : ℕ) (cs : List CandidateState)
    → OnLadder (demote_idle self now cs).1
unfolding demote_idle
demote_idle-OnLadder self now [] = tt
demote_idle-OnLadder self now (c ∷ cs) = elim (Bool-cases (is_idle self c)) [
  | inl idle ↦ rw idle (idle_phase self c idle, demote_idle-OnLadder self now cs)
  | inr busy ↦ rw busy (demote_idle-OnLadder self now cs)
]
