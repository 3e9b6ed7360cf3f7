-- ===== src/Tests/Budget.antt =====
-- The disk budget on a concrete store.
use longctx.Base.{
  ℕ, arith, ◌*◌, ◌/◌, ◌≡◌, refl, false, none, List, [], ◌∷◌, String, length, take, In,
}
use longctx.ChunkStore.{
  Project, contains_str, get_project, list_projects, list_files, get_chunks_by_file,
}
use longctx.DiskBudget.{
  ProjectFootprint, EvictionPlan, Backend, chunk_bytes, file_bytes, project_footprint, footprints,
  choose, plan_eviction, execute_eviction, maybe_evict,
}
use longctx.DiskBudget.Plan.{filled, names, total}
use longctx.DiskBudget.Order.{IsPlanFor, plan_eviction-IsPlanFor}
use longctx.DiskBudget.Evicted.{Evicted}
use longctx.DiskBudget.Evict.{maybe_evict-IsConsistent}
use longctx.Indexer.{Stores}
use longctx.Indexer.Consistent.{IsConsistent}
use longctx.Tests.Index.{externals, store, stores, stores-IsConsistent}

abbrev prints : List ProjectFootprint
prints =
    record { name = "a"; last_query_at = 1; bytes_used = 10 }
    ∷ record { name = "b"; last_query_at = 2; bytes_used = 0 }
    ∷ record { name = "c"; last_query_at = 3; bytes_used = 20 }
    ∷ record { name = "d"; last_query_at = 4; bytes_used = 30 }
    ∷ []

choose_run : choose 15 0 prints ≡ ("a" ∷ "c" ∷ [], 30)
unfolding choose
choose_run = refl

maybe_evict-IsConsistent_example :
    (s' : Stores (List ℕ)) × (plan : EvictionPlan) × (maybe_evict externals Backend.indexer stores
        2000000000 1 1
        (λ name. none)
        []
      ≡ (s', plan))
    × IsConsistent externals s'
    × Evicted store s'.store plan.targets
    × ((execute_eviction externals Backend.indexer stores plan.targets).1 ≡ length plan.targets)
    × ((name : String)
        → In name plan.targets
        → (contains_str name [] ≡ false) × (p : Project) × In p store.projects × (p.name ≡ name))
maybe_evict-IsConsistent_example =
    maybe_evict-IsConsistent externals stores 2000000000 1 1 (λ name. none) [] stores-IsConsistent

-- The one project of the store is evicted; where it is pinned, nothing is.
plan_run :
    ((plan_eviction externals.utf8 store 2000000000 1 1 (λ name. none) []).targets ≡ "p" ∷ [])
    × ((plan_eviction externals.utf8 store 2000000000 1 1 (λ name. none) ("p" ∷ [])).targets ≡ [])
unfolding plan_eviction choose footprints project_footprint file_bytes chunk_bytes get_project
    list_projects list_files get_chunks_by_file
plan_run = (refl, refl)

plan_eviction-IsPlanFor_example :
    (n : ℕ) × IsPlanFor
      (filled (footprints externals.utf8 store (λ name. none) []))
      2000000000
      (1 * 1073741824 / 1)
      n
    × ((plan_eviction externals.utf8 store 2000000000 1 1 (λ name. none) []).targets
        ≡ names (take n (filled (footprints externals.utf8 store (λ name. none) []))))
    × ((plan_eviction externals.utf8 store 2000000000 1 1 (λ name. none) []).bytes_to_free
        ≡ total (take n (filled (footprints externals.utf8 store (λ name. none) []))))
plan_eviction-IsPlanFor_example =
    plan_eviction-IsPlanFor externals.utf8 store 2000000000 1 1 (λ name. none) [] (omega arith)
