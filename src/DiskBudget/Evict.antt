-- ===== src/DiskBudget/Evict.antt =====
-- `maybe_evict` of disk_budget.py, on the stores of the indexer.
use longctx.Base.{
  ℕ, zero, suc, ◌*◌, ◌/◌, ◌==◌, ◌+◌, ◌-◌, ◌≡◌, refl, ap, ◌∙◌, sym, String, false, not, Option, some,
  inl, inr, Bool-cases, List, [], ◌∷◌, arith, map, length, select, In, In-map, In-select,
  In-order_with, take, leb,
}
use mathlib.Core.Path.{subst}
use longctx.Base.Result.{ok}
use longctx.Chunker.{Text}
use longctx.ChunkStore.{ChunkStore, Project, contains_str, list_projects}
use longctx.Indexer.{Externals, Stores}
use longctx.Indexer.Consistent.{IsConsistent}
use longctx.Indexer.Manage.{delete_project}
use longctx.Indexer.Drop.{delete_project-IsConsistent}
use longctx.DiskBudget.{
  ProjectFootprint, EvictionPlan, Backend, project_footprint, footprints, evict_before, choose,
  plan_eviction, drop_project, execute_eviction, maybe_evict,
}
use longctx.DiskBudget.Evicted.{Evicted, Evicted-nil, Evicted-cons, delete_project-Evicted}
use longctx.DiskBudget.Plan.{names, filled, choose-IsLeast}

module _ {V : Type 0} (x : Externals V) where
  execute_nil : (s : Stores V) → execute_eviction x Backend.indexer s [] ≡ (s, 0)
  unfolding execute_eviction
  execute_nil s = refl

  execute_cons :
      (s t : Stores V) (name : String) (targets : List String)
      → delete_project x s name ≡ ok t
      → execute_eviction x Backend.indexer s (name ∷ targets) ≡ (
        (execute_eviction x Backend.indexer t targets).0,
        (execute_eviction x Backend.indexer t targets).1 + 1,
      )
  unfolding execute_eviction drop_project
  execute_cons s t name targets run =
      let dropped : drop_project x Backend.indexer s name ≡ some t = rw (run, drop_project) refl in
      rw (dropped, execute_eviction) refl

  -- Executing a plan with the indexer takes every target and leaves consistent stores.
  execute_eviction-Evicted :
      (s : Stores V) (targets : List String)
      → IsConsistent x s
      → IsConsistent x (execute_eviction x Backend.indexer s targets).0
        × Evicted s.store (execute_eviction x Backend.indexer s targets).0.store targets
        × ((execute_eviction x Backend.indexer s targets).1 ≡ length targets)
  execute_eviction-Evicted s [] h = rw (execute_nil s) (h, Evicted-nil s.store, refl)
  execute_eviction-Evicted s (name ∷ targets) h =
      let (t, run, consistent, _, left, kept) = delete_project-IsConsistent x s name h in
      let (later, evicted, count) = execute_eviction-Evicted t targets consistent in
      let first = delete_project-Evicted x s t name run left kept in
      rw (execute_cons s t name targets run)
        (later, Evicted-cons s.store t.store _ name targets first evicted, omega (arith, count))

name-footprint :
    (utf8 : Text → List ℕ) (st : ChunkStore) (overrides : String → Option ℕ) (name : String)
    → (project_footprint utf8 st overrides name).name ≡ name
unfolding project_footprint
name-footprint utf8 st overrides name = ground arith

In-take : {A : Type 0} (n : ℕ) (a : A) (xs : List A) → In a (take n xs) → In a xs
In-take zero a xs m = absurd m
In-take (suc n) a [] m = absurd m
In-take (suc n) a (x ∷ xs) (inl e) = inl e
In-take (suc n) a (x ∷ xs) (inr m) = inr (In-take n a xs m)

abbrev IsVictim : ChunkStore → List String → String → Type 0
IsVictim st pinned name =
    (contains_str name pinned ≡ false) × (p : Project) × In p st.projects × (p.name ≡ name)

footprint-IsVictim :
    (utf8 : Text → List ℕ) (st : ChunkStore) (overrides : String → Option ℕ) (pinned : List String)
    (f : ProjectFootprint)
    → In f (footprints utf8 st overrides pinned)
    → IsVictim st pinned f.name
unfolding footprints list_projects
footprint-IsVictim utf8 st overrides pinned f m =
    let candidates =
      select (λ (k : Project). not (contains_str k.name pinned)) (list_projects st) in
    let print = λ (k : Project). project_footprint utf8 st overrides k.name in
    let (p, m', e) =
      In-map print f candidates (In-order_with evict_before f (map print candidates) m) in
    let (listed, free) =
      In-select (λ (k : Project). not (contains_str k.name pinned)) p (list_projects st) m' in
    let away : contains_str p.name pinned ≡ false = ground arith in
    let named : p.name ≡ f.name =
      sym (name-footprint utf8 st overrides p.name) ∙ ap (λ (k : ProjectFootprint). k.name) e in
    (
      ap (λ k. contains_str k pinned) (sym named) ∙ away,
      p,
      In-order_with _ p st.projects listed,
      named,
    )

chosen-IsVictim :
    (utf8 : Text → List ℕ) (st : ChunkStore) (overrides : String → Option ℕ) (pinned : List String)
    (overflow : ℕ) (name : String)
    → In name (choose overflow 0 (footprints utf8 st overrides pinned)).0
    → IsVictim st pinned name
chosen-IsVictim utf8 st overrides pinned overflow name m =
    let fps = footprints utf8 st overrides pinned in
    let (n, least, chosen, sum) = choose-IsLeast overflow 0 fps in
    let m1 : In name (names (take n (filled fps))) = subst (In name) chosen m in
    let (f, m2, named) = In-map (λ (g : ProjectFootprint). g.name) name (take n (filled fps)) m1 in
    let (inside, _) = In-select _ f fps (In-take n f (filled fps) m2) in
    subst (IsVictim st pinned) named (footprint-IsVictim utf8 st overrides pinned f inside)

-- The targets of a plan are projects of the store, and none of them is pinned.
plan_eviction-IsVictim :
    (utf8 : Text → List ℕ) (st : ChunkStore) (current num den : ℕ) (overrides : String → Option ℕ)
    (pinned : List String) (name : String)
    → In name (plan_eviction utf8 st current num den overrides pinned).targets
    → (contains_str name pinned ≡ false) × (p : Project) × In p st.projects × (p.name ≡ name)
unfolding plan_eviction
plan_eviction-IsVictim utf8 st current num den overrides pinned name m =
    elim (Bool-cases (num == 0)) [
      | inl off ↦ absurd (rw off at m)
      | inr on ↦ elim (Bool-cases (leb current (num * 1073741824 / den))) [
        | inl below ↦ absurd (rw (on, below) at m)
        | inr over ↦
            chosen-IsVictim utf8 st overrides pinned (current - num * 1073741824 / den) name
              (rw (on, over) at m)
      ]
    ]

module _ {V : Type 0} (x : Externals V) where
  -- An eviction with the indexer leaves consistent stores, whatever the budget. The targets of the
  -- plan that it returns are projects of the store, and none of them is pinned. Every one of them is
  -- gone, with its files and their chunks; every other project, file and chunk stays.
  pub maybe_evict-IsConsistent :
      (s : Stores V) (current num den : ℕ) (overrides : String → Option ℕ) (pinned : List String)
      → IsConsistent x s
      → (s' : Stores V) × (plan : EvictionPlan) × (maybe_evict x Backend.indexer s current num den
            overrides pinned
          ≡ (s', plan))
        × IsConsistent x s'
        × Evicted s.store s'.store plan.targets
        × ((execute_eviction x Backend.indexer s plan.targets).1 ≡ length plan.targets)
        × ((name : String)
            → In name plan.targets
            → (contains_str name pinned ≡ false)
              × (p : Project) × In p s.store.projects
              × (p.name ≡ name))
  unfolding maybe_evict
  maybe_evict-IsConsistent s current num den overrides pinned h =
      let plan = plan_eviction x.utf8 s.store current num den overrides pinned in
      let (consistent, evicted, all) = execute_eviction-Evicted x s plan.targets h in
      (
        (execute_eviction x Backend.indexer s plan.targets).0,
        plan,
        refl,
        consistent,
        evicted,
        all,
        plan_eviction-IsVictim x.utf8 s.store current num den overrides pinned,
      )
