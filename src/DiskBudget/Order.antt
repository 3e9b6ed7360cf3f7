-- ===== src/DiskBudget/Order.antt =====
-- The order in which `plan_eviction` takes the projects, and how many of them.
use longctx.Base.{
  ℕ, ◌+◌, ◌-◌, ◌*◌, ◌/◌, ◌≤◌, ◌<◌, ◌≡◌, refl, ◌⊎◌, inl, inr, Bool-cases, true, false, not, String,
  Option, List, arith, map, leb, ltb, ◌==◌, length, select, take, drop, In,
}
use longctx.Base.Ordered.{
  IsOrder, IsOrdered, select-IsOrdered, take-before-drop, order_with-IsOrdered,
}
use longctx.Chunker.{Text}
use longctx.ChunkStore.{ChunkStore, contains_str, list_projects}
use longctx.DiskBudget.{
  ProjectFootprint, evict_before, project_footprint, footprints, plan_eviction,
}
use longctx.DiskBudget.Plan.{filled, names, total, choose-IsLeast}

evict_before-IsOrder : IsOrder evict_before
evict_before-IsOrder = record {
  total = λ f g h. ground arith;
  trans = λ f g h first second. ground arith;
}

evict_before_cases :
    (f g : ProjectFootprint)
    → evict_before f g ≡ true
    → (f.last_query_at < g.last_query_at)
      ⊎ ((f.last_query_at ≡ g.last_query_at) × (f.bytes_used ≤ g.bytes_used))
evict_before_cases f g h = elim (Bool-cases (ltb f.last_query_at g.last_query_at)) [
  | inl lt ↦ inl (ground arith)
  | inr ge ↦ inr (ground arith, ground arith)
]

footprints-IsOrdered :
    (utf8 : Text → List ℕ) (st : ChunkStore) (overrides : String → Option ℕ) (pinned : List String)
    → IsOrdered evict_before (footprints utf8 st overrides pinned)
unfolding footprints
footprints-IsOrdered utf8 st overrides pinned = order_with-IsOrdered evict_before-IsOrder (
    map (λ p. project_footprint utf8 st overrides p.name)
      (select (λ p. not (contains_str p.name pinned)) (list_projects st)))

-- Of the footprints `fs`, with a cache of `current` bytes, the first `n` are evicted: as few as bring
-- the cache within the budget, or all of them, and those least recently used.
pub record IsPlanFor (fs : List ProjectFootprint) (current budget n : ℕ) : Type 0 where
  pub within : n ≤ length fs
  pub enough : (n ≡ length fs) ⊎ (current ≤ budget + total (take n fs))
  pub needed : (m : ℕ) → m < n → budget + total (take m fs) < current
  pub oldest :
      (f g : ProjectFootprint)
      → In f (take n fs)
      → In g (drop n fs)
      → (f.last_query_at < g.last_query_at)
        ⊎ ((f.last_query_at ≡ g.last_query_at) × (f.bytes_used ≤ g.bytes_used))

-- A plan for a budget above zero names the first `n` of the footprints that have something to free, and
-- says what they free: as few as bring the cache within the budget, or all of them, and none that was
-- used later than one that is kept, nor any larger one of the same time.
pub plan_eviction-IsPlanFor :
    (utf8 : Text → List ℕ) (st : ChunkStore) (current num den : ℕ) (overrides : String → Option ℕ)
    (pinned : List String)
    → 0 < num
    → (n : ℕ) × IsPlanFor
        (filled (footprints utf8 st overrides pinned))
        current
        (num * 1073741824 / den)
        n
      × ((plan_eviction utf8 st current num den overrides pinned).targets
          ≡ names (take n (filled (footprints utf8 st overrides pinned))))
      × ((plan_eviction utf8 st current num den overrides pinned).bytes_to_free
          ≡ total (take n (filled (footprints utf8 st overrides pinned))))
unfolding plan_eviction
plan_eviction-IsPlanFor utf8 st current num den overrides pinned pos =
    let fs : List ProjectFootprint = filled (footprints utf8 st overrides pinned) in
    let budget : ℕ = num * 1073741824 / den in
    let enabled : num == 0 ≡ false = ground arith in
    elim (Bool-cases (leb current budget)) [
      | inl fits ↦ (
        0,
        record {
          within = omega arith;
          enough = inr (ground arith);
          needed = λ m lt. absurd (omega arith);
          oldest = λ f g m m'. absurd m;
        },
        rw (enabled, fits) refl,
        rw (enabled, fits) refl,
      )
      | inr over ↦
          let (n, least, chosen, freed) =
            choose-IsLeast (current - budget) 0 (footprints utf8 st overrides pinned) in
          let exceeds : budget < current = ground arith in
          (
            n,
            record {
              within = least.within;
              enough = elim least.enough [ inl all ↦ inl all | inr le ↦ inr (omega (arith, le)) ];
              needed = λ m lt. omega (arith, least.needed m lt, exceeds);
              oldest = λ f g m m'. evict_before_cases f g (
                  take-before-drop evict_before n fs f g
                    (select-IsOrdered evict_before (λ k. not (k.bytes_used == 0))
                      (footprints utf8 st overrides pinned)
                      (footprints-IsOrdered utf8 st overrides pinned))
                    m m');
            },
            rw (enabled, over) chosen,
            rw (enabled, over) (omega (arith, freed)),
          )
    ]
