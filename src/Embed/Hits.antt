-- ===== src/Embed/Hits.antt =====
-- `search_dense` of memmap_store.py: the mask over the rows, and the hits.
use longctx.Base.{
  ℕ, suc, ◌≤◌, ◌≡◌, refl, ap, ◌∙◌, sym, true, ◌||◌, Option, none, some, inl, inr, Bool-cases,
  Option-cases, List, [], ◌∷◌, arith, map, ◌==◌, length, contains, All, IsDistinct,
}
use longctx.Embed.Search.{finite_hits, score_at}

module _ {S : Type 0} where
  abbrev pub rows_hit : List (ℕ × S) → List ℕ
  rows_hit hits = map (λ h. h.0) hits

  module _ (os : List (Option S)) where
    finite_nil : finite_hits os [] ≡ []
    unfolding finite_hits
    finite_nil = refl

    finite_miss :
        (i : ℕ) (idx : List ℕ)
        → score_at os i ≡ none
        → finite_hits os (i ∷ idx) ≡ finite_hits os idx
    unfolding finite_hits
    finite_miss i idx bad = rw (bad, finite_hits) refl

    finite_hit :
        (i : ℕ) (idx : List ℕ) (s : S)
        → score_at os i ≡ some s
        → finite_hits os (i ∷ idx) ≡ (i, s) ∷ finite_hits os idx
    unfolding finite_hits
    finite_hit i idx s good = rw (good, finite_hits) refl

    pub finite_hits-All :
        (idx idx' : List ℕ)
        → ((i : ℕ) → contains i idx ≡ true → contains i idx' ≡ true)
        → All (λ h. (contains h.0 idx' ≡ true) × (score_at os h.0 ≡ some h.1)) (finite_hits os idx)
    finite_hits-All [] idx' sub = rw finite_nil tt
    finite_hits-All (i ∷ idx) idx' sub =
        let rest = finite_hits-All idx idx' (λ j m. sub j (ground arith)) in
        elim (Option-cases (score_at os i)) [
          | inl bad ↦ rw (finite_miss i idx bad) rest
          | inr (s, good) ↦ rw (finite_hit i idx s good) ((sub i (ground arith), good), rest)
        ]

    hits_within :
        (r : ℕ) (idx : List ℕ)
        → contains r (rows_hit (finite_hits os idx)) ≡ true
        → contains r idx ≡ true
    hits_within r [] m = rw finite_nil at m
    hits_within r (i ∷ idx) m = elim (Option-cases (score_at os i)) [
      | inl bad ↦
          let m' : contains r (rows_hit (finite_hits os idx)) ≡ true =
            rw (finite_miss i idx bad) at m in
          ground (arith, hits_within r idx m')
      | inr (s, good) ↦
          let m' : (i == r || contains r (rows_hit (finite_hits os idx))) ≡ true =
            rw (finite_hit i idx s good) at m in
          ground (arith, hits_within r idx)
    ]

    pub hits-IsDistinct :
        (idx : List ℕ) → IsDistinct idx → IsDistinct (rows_hit (finite_hits os idx))
    hits-IsDistinct [] d = rw finite_nil tt
    hits-IsDistinct (i ∷ idx) (out, d) = elim (Option-cases (score_at os i)) [
      | inl bad ↦ rw (finite_miss i idx bad) (hits-IsDistinct idx d)
      | inr (s, good) ↦
          rw (finite_hit i idx s good)
            (ground (arith, out, hits_within i idx), hits-IsDistinct idx d)
    ]

    pub hits_complete :
        (r : ℕ) (s : S) (idx : List ℕ)
        → contains r idx ≡ true
        → score_at os r ≡ some s
        → contains r (rows_hit (finite_hits os idx)) ≡ true
    hits_complete r s [] m e = absurd (ground arith)
    hits_complete r s (i ∷ idx) m e = elim (Bool-cases (r == i)) [
      | inl here ↦
          let same : r ≡ i = ground arith in
          let good : score_at os i ≡ some s = ap (score_at os) (sym same) ∙ e in
          rw (finite_hit i idx s good) (ground arith)
      | inr other ↦
          let rest = hits_complete r s idx (ground arith) e in
          elim (Option-cases (score_at os i)) [
            | inl bad ↦ rw (finite_miss i idx bad) rest
            | inr (s', good) ↦ rw (finite_hit i idx s' good) (ground (arith, rest))
          ]
    ]

    pub length-hits : (idx : List ℕ) → length (finite_hits os idx) ≤ length idx
    length-hits [] = rw finite_nil (omega arith)
    length-hits (i ∷ idx) = elim (Option-cases (score_at os i)) [
      | inl bad ↦ rw (finite_miss i idx bad) (omega (arith, length-hits idx))
      | inr (s, good) ↦ rw (finite_hit i idx s good) (omega (arith, length-hits idx))
    ]

    pub length-hits_all :
        (idx : List ℕ)
        → ((i : ℕ) → contains i idx ≡ true → (s : S) × (score_at os i ≡ some s))
        → length (finite_hits os idx) ≡ length idx
    length-hits_all [] good = rw finite_nil refl
    length-hits_all (i ∷ idx) good =
        let (s, here) = good i (ground arith) in
        rw (finite_hit i idx s here) (ap suc (length-hits_all idx (λ j m. good j (ground arith))))
