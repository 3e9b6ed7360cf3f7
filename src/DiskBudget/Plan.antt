-- ===== src/DiskBudget/Plan.antt =====
-- disk_budget.py: the projects that a plan names, and how many of them.
use longctx.Base.{
  ℕ, zero, suc, ◌+◌, ◌≤◌, ◌<◌, ◌≡◌, refl, ap, ◌∙◌, not, ◌⊎◌, inl, inr, Bool-cases, String, List, [],
  ◌∷◌, arith, map, leb, ◌==◌, length, select, take,
}
use mathlib.Core.Path.{subst}
use longctx.DiskBudget.{ProjectFootprint, choose}

abbrev pub total : List ProjectFootprint → ℕ
total [] = 0
total (f ∷ fs) = f.bytes_used + total fs

-- The footprints that have something to free.
abbrev pub filled : List ProjectFootprint → List ProjectFootprint
filled = select (λ f. not (f.bytes_used == 0))

abbrev pub names : List ProjectFootprint → List String
names = map (λ f. f.name)

-- `n` is the least number of footprints that frees the overflow, or all of them.
pub record IsLeast (overflow freed : ℕ) (fs : List ProjectFootprint) (n : ℕ) : Type 0 where
  pub within : n ≤ length fs
  pub enough : (n ≡ length fs) ⊎ (overflow ≤ freed + total (take n fs))
  pub needed : (m : ℕ) → m < n → freed + total (take m fs) < overflow

IsLeast-take :
    (overflow freed : ℕ) (f : ProjectFootprint) (fs : List ProjectFootprint) (n : ℕ)
    → freed < overflow
    → IsLeast overflow (freed + f.bytes_used) fs n
    → IsLeast overflow freed (f ∷ fs) (suc n)
IsLeast-take overflow freed f fs n lt least = record {
  within = omega (arith, least.within);
  enough = elim least.enough [ inl all ↦ inl (ap suc all) | inr le ↦ inr (omega (arith, le)) ];
  needed = λ m below. needed_at m below;
}
  where
    needed_at : (m : ℕ) → m < suc n → freed + total (take m (f ∷ fs)) < overflow
    needed_at zero below = omega arith
    needed_at (suc m) below = omega (arith, least.needed m (omega arith))

-- The loop takes the first `n` of the footprints that have something to free, for the least `n` that
-- frees the overflow, or all of them if that is not enough; and it reports what they free.
pub choose-IsLeast :
    (overflow freed : ℕ) (fps : List ProjectFootprint)
    → (n : ℕ) × IsLeast overflow freed (filled fps) n
      × ((choose overflow freed fps).0 ≡ names (take n (filled fps)))
      × ((choose overflow freed fps).1 ≡ freed + total (take n (filled fps)))
unfolding choose
choose-IsLeast overflow freed [] = (
  0,
  record { within = omega arith; enough = inl refl; needed = λ m lt. absurd (omega arith) },
  refl,
  omega arith,
)
choose-IsLeast overflow freed (fp ∷ fps) = elim (Bool-cases (leb overflow freed)) [
  | inl done ↦ (
    0,
    record {
      within = omega arith;
      enough = inr (ground arith);
      needed = λ m lt. absurd (omega arith);
    },
    rw done refl,
    rw done (omega arith),
  )
  | inr open_overflow ↦
      let (n, least, chosen, sum) = choose-IsLeast overflow (freed + fp.bytes_used) fps in
      elim (Bool-cases (fp.bytes_used == 0)) [
        | inl empty ↦
            let same : freed + fp.bytes_used ≡ freed = ground arith in
            (
              n,
              rw empty (subst (λ k. IsLeast overflow k (filled fps) n) same least),
              rw (open_overflow, empty) chosen,
              rw (open_overflow, empty) (sum ∙ ap (λ k. k + total (take n (filled fps))) same),
            )
        | inr some_bytes ↦ (
          suc n,
          rw some_bytes (IsLeast-take overflow freed fp (filled fps) n (ground arith) least),
          rw (open_overflow, some_bytes) (ap (◌∷◌ fp.name) chosen),
          rw (open_overflow, some_bytes) (omega (arith, sum)),
        )
      ]
]
