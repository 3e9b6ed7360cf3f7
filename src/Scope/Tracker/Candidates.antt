-- ===== src/Scope/Tracker/Candidates.antt =====
-- The table of candidates, by its keys.
use longctx.Base.{
  ◌≤◌, ◌≡◌, refl, sym, ap, ◌∙◌, true, false, ◌||◌, ◌⊎◌, inl, inr, Bool-cases, none, some, List, [],
  ◌∷◌, map, length, select, In, arith,
}
use longctx.Scope.Paths.{FilePath, path_eq, contains_path, path_eq_iff, path_eq_self}
use longctx.Scope.Tracker.{CandidateState, is_active, active_locked, get_candidate, put_candidate}

abbrev pub keys : List CandidateState → List FilePath
keys = map (λ c. c.ancestor)

-- No two candidates have the same ancestor.
abbrev pub HasDistinctKeys : List CandidateState → Type 0
HasDistinctKeys [] = Unit
HasDistinctKeys (c ∷ cs) = (contains_path c.ancestor (keys cs) ≡ false) × HasDistinctKeys cs

-- Candidates that are active are one and the same.
abbrev pub HasOneActive : List CandidateState → Type 0
HasOneActive cs =
    (c d : CandidateState)
    → In c cs
    → In d cs
    → is_active c ≡ true
    → is_active d ≡ true
    → c.ancestor ≡ d.ancestor

contains-keys-put :
    (a : FilePath) (c : CandidateState) (cs : List CandidateState)
    → contains_path a (keys (put_candidate c cs))
      ≡ (path_eq c.ancestor a || contains_path a (keys cs))
contains-keys-put a c [] = ground arith
contains-keys-put a c (d ∷ ds) = elim (Bool-cases (path_eq d.ancestor c.ancestor)) [
  | inl same ↦
      let e : d.ancestor ≡ c.ancestor = (path_eq_iff d.ancestor c.ancestor).0 same in
      rw (same, e) (ground arith)
  | inr other ↦ rw other (ground (arith, contains-keys-put a c ds))
]

pub put-HasDistinctKeys :
    (c : CandidateState) (cs : List CandidateState)
    → HasDistinctKeys cs
    → HasDistinctKeys (put_candidate c cs)
put-HasDistinctKeys c [] h = (refl, tt)
put-HasDistinctKeys c (d ∷ ds) (new, rest) = elim (Bool-cases (path_eq d.ancestor c.ancestor)) [
  | inl same ↦
      let e : d.ancestor ≡ c.ancestor = (path_eq_iff d.ancestor c.ancestor).0 same in
      rw same (rw e at new, rest)
  | inr other ↦
      let apart : path_eq c.ancestor d.ancestor ≡ false = ground (
        arith,
        path_eq_iff c.ancestor d.ancestor,
        path_eq_iff d.ancestor c.ancestor,
        path_eq_self d.ancestor,
      ) in
      rw other (ground (arith, contains-keys-put d.ancestor c ds), put-HasDistinctKeys c ds rest)
]

pub In-put :
    (d c : CandidateState) (cs : List CandidateState)
    → In d (put_candidate c cs)
    → (c ≡ d) ⊎ In d cs
In-put d c [] m = m
In-put d c (e ∷ es) m = elim (Bool-cases (path_eq e.ancestor c.ancestor)) [
  | inl same ↦
      let m' : (c ≡ d) ⊎ In d es = rw same at m in
      elim m' [ inl here ↦ inl here | inr there ↦ inr (inr there) ]
  | inr other ↦
      let m' : (e ≡ d) ⊎ In d (put_candidate c es) = rw other at m in
      elim m' [
        | inl here ↦ inr (inl here)
        | inr there ↦ elim (In-put d c es there) [ inl eq ↦ inl eq | inr i ↦ inr (inr i) ]
      ]
]

pub put-In : (c : CandidateState) (cs : List CandidateState) → In c (put_candidate c cs)
put-In c [] = inl refl
put-In c (e ∷ es) = elim (Bool-cases (path_eq e.ancestor c.ancestor)) [
  | inl same ↦ rw same (inl refl)
  | inr other ↦ rw other (inr (put-In c es))
]

-- A candidate may be put back, if it is active only where no other one is.
pub put-HasOneActive :
    (c : CandidateState) (cs : List CandidateState)
    → HasOneActive cs
    → (is_active c ≡ true
        → (d : CandidateState) → In d cs
        → is_active d ≡ true
        → d.ancestor ≡ c.ancestor)
    → HasOneActive (put_candidate c cs)
put-HasOneActive c cs h alone a b ma mb pa pb = elim (In-put a c cs ma) [
  | inl ea ↦ elim (In-put b c cs mb) [
    | inl eb ↦ ap (λ k. k.ancestor) (sym ea ∙ eb)
    | inr ib ↦
        let pc : is_active c ≡ true = ap is_active ea ∙ pa in
        ap (λ k. k.ancestor) (sym ea) ∙ sym (alone pc b ib pb)
  ]
  | inr ia ↦ elim (In-put b c cs mb) [
    | inl eb ↦
        let pc : is_active c ≡ true = ap is_active eb ∙ pb in
        alone pc a ia pa ∙ ap (λ k. k.ancestor) eb
    | inr ib ↦ h a b ia ib pa pb
  ]
]

contains-keys :
    (a : FilePath) (d : CandidateState) (cs : List CandidateState)
    → In d cs
    → d.ancestor ≡ a
    → contains_path a (keys cs) ≡ true
contains-keys a d [] m e = absurd m
contains-keys a d (c ∷ cs) (inl here) e =
    let same : path_eq c.ancestor a ≡ true =
      (path_eq_iff c.ancestor a).1 (ap (λ k. k.ancestor) here ∙ e) in
    rw same refl
contains-keys a d (c ∷ cs) (inr there) e = ground (arith, contains-keys a d cs there e)

none_active :
    (cs : List CandidateState)
    → ((d : CandidateState) → In d cs → is_active d ≡ false)
    → select is_active cs ≡ []
none_active [] h = refl
none_active (c ∷ cs) h =
    let off : is_active c ≡ false = h c (inl refl) in rw off (none_active cs (λ d m. h d (inr m)))

-- At most one candidate is active.
pub actives-le :
    (cs : List CandidateState)
    → HasDistinctKeys cs
    → HasOneActive cs
    → length (select is_active cs) ≤ 1
actives-le [] distinct one = omega arith
actives-le (c ∷ cs) (new, distinct) one = elim (Bool-cases (is_active c)) [
  | inl on ↦
      let others : (d : CandidateState) → In d cs → is_active d ≡ false = λ d m.
        elim (Bool-cases (is_active d)) [
          | inl p ↦
              let e : d.ancestor ≡ c.ancestor = one d c (inr m) (inl refl) p on in
              let old : contains_path c.ancestor (keys cs) ≡ true =
                contains-keys c.ancestor d cs m e in
              absurd (ground arith)
          | inr p ↦ p
        ] in
      rw on (rw (none_active cs others) (omega arith))
  | inr off ↦ rw off (actives-le cs distinct (λ a b ma mb. one a b (inr ma) (inr mb)))
]

-- What `find` finds.
pub get_candidate-ancestor :
    (a : FilePath) (c : CandidateState) (cs : List CandidateState)
    → get_candidate a cs ≡ some c
    → c.ancestor ≡ a
get_candidate-ancestor a c [] h = absurd (ground arith)
get_candidate-ancestor a c (d ∷ ds) h = elim (Bool-cases (path_eq d.ancestor a)) [
  | inl same ↦
      let e : d ≡ c = ground arith in
      ap (λ k. k.ancestor) (sym e) ∙ (path_eq_iff d.ancestor a).0 same
  | inr other ↦ get_candidate-ancestor a c ds (ground arith)
]

pub active_locked-none :
    (d : CandidateState) (cs : List CandidateState)
    → active_locked cs ≡ none
    → In d cs
    → is_active d ≡ false
active_locked-none d [] h m = absurd m
active_locked-none d (c ∷ cs) h m = elim (Bool-cases (is_active c)) [
  | inl on ↦ absurd (ground arith)
  | inr off ↦ elim m [
    | inl e ↦ ap is_active (sym e) ∙ off
    | inr m' ↦ active_locked-none d cs (ground arith) m'
  ]
]
