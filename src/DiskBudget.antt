-- ===== src/DiskBudget.antt =====
-- longctx_daemon/disk_budget.py: the eviction of projects when the cache is over its budget. The size
-- of the cache on disk is a parameter; times are whole seconds; the budget in GB is a fraction. A
-- deletion that fails is taken to leave the stores as they were.
pub mod Plan
pub mod Order
pub mod Evicted
pub mod Evict
use longctx.Base.{
  ℕ, zero, suc, ◌+◌, ◌-◌, ◌*◌, ◌/◌, String, Bool, true, false, not, ◌&&◌, ◌||◌, Option, none, some,
  List, [], ◌∷◌, map, ltb, leb, ◌==◌, str_eq, if◌then◌else◌, length, select, order_with,
}
use longctx.Base.Result.{Result, ok, raise}
use longctx.Chunker.{Text}
use longctx.ChunkStore
use longctx.ChunkStore.{
  ChunkStore, Chunk, FileRecord, Project, contains_str, get_project, list_projects, list_files,
  get_chunks_by_file,
}
use longctx.Indexer.{Externals, Stores}
use longctx.Indexer.Manage.{delete_project}

pub record ProjectFootprint : Type 0 where
  pub name : String
  pub last_query_at : ℕ
  pub bytes_used : ℕ

pub record EvictionPlan : Type 0 where
  pub targets : List String
  pub bytes_to_free : ℕ
  pub pre_eviction_bytes : ℕ
  pub budget_bytes : ℕ
  pub budget_exceeded_by : ℕ

-- The bytes of the chunks: of the text, and 1536 for each.
unfoldable pub chunk_bytes : (Text → List ℕ) → List Chunk → ℕ
chunk_bytes utf8 [] = 0
chunk_bytes utf8 (c ∷ cs) = length (utf8 c.text) + 1536 + chunk_bytes utf8 cs

unfoldable pub file_bytes : (Text → List ℕ) → ChunkStore → List FileRecord → ℕ
unfolding chunk_bytes
file_bytes utf8 st [] = 0
file_bytes utf8 st (f ∷ fs) = chunk_bytes utf8 (get_chunks_by_file st f.id) + file_bytes utf8 st fs

-- `_project_footprint`; the overrides give no entry where there are none.
unfoldable pub project_footprint :
    (Text → List ℕ) → ChunkStore → (String → Option ℕ) → String → ProjectFootprint
unfolding file_bytes
project_footprint utf8 st overrides name = elim (get_project st name) [
  | none ↦ record { name = name; last_query_at = 0; bytes_used = 0 }
  | some proj ↦
      let last : ℕ = elim (overrides name) [ none ↦ 0 | some t ↦ t ] in
      record {
        name = name;
        last_query_at = if last == 0 then proj.last_full_scan_at else last;
        bytes_used = file_bytes utf8 st (list_files st name);
      }
]

-- The order of the tuples `(last_query_at, bytes_used)`.
abbrev pub evict_before : ProjectFootprint → ProjectFootprint → Bool
evict_before f g =
    ltb f.last_query_at g.last_query_at
    || f.last_query_at == g.last_query_at && leb f.bytes_used g.bytes_used

unfoldable pub footprints :
    (Text → List ℕ) → ChunkStore → (String → Option ℕ) → List String → List ProjectFootprint
unfolding project_footprint
footprints utf8 st overrides pinned = order_with evict_before (
    map (λ p. project_footprint utf8 st overrides p.name)
      (select (λ p. not (contains_str p.name pinned)) (list_projects st)))

-- The loop over the footprints: the targets, and what is freed in all. A footprint of no bytes adds
-- nothing to what is freed.
unfoldable pub choose : ℕ → ℕ → List ProjectFootprint → List String × ℕ
choose overflow freed [] = ([], freed)
choose overflow freed (fp ∷ fps) =
    let rest = choose overflow (freed + fp.bytes_used) fps in
    if leb overflow freed
    then ([], freed)
    else if fp.bytes_used == 0
    then rest
    else (fp.name ∷ rest.0, rest.1)

-- `plan_eviction`, for a cache of `current` bytes and a budget of `num / den` GB.
unfoldable pub plan_eviction :
    (Text → List ℕ) → ChunkStore → ℕ → ℕ → ℕ → (String → Option ℕ) → List String → EvictionPlan
unfolding footprints choose
plan_eviction utf8 st current num den overrides pinned =
    let budget : ℕ = num * 1073741824 / den in
    if num == 0
    then record {
      targets = [];
      bytes_to_free = 0;
      pre_eviction_bytes = current;
      budget_bytes = 0;
      budget_exceeded_by = 0;
    }
    else if leb current budget
    then record {
      targets = [];
      bytes_to_free = 0;
      pre_eviction_bytes = current;
      budget_bytes = budget;
      budget_exceeded_by = 0;
    }
    else let chosen = choose (current - budget) 0 (footprints utf8 st overrides pinned) in
      record {
        targets = chosen.0;
        bytes_to_free = chosen.1;
        pre_eviction_bytes = current;
        budget_bytes = budget;
        budget_exceeded_by = current - budget;
      }

-- What `execute_eviction` is given to delete with.
pub data Backend : Type 0 where
  indexer chunk_store nothing : Backend

module _ {V : Type 0} (x : Externals V) where
  unfoldable pub drop_project : Backend → Stores V → String → Option (Stores V)
  drop_project Backend.indexer s name = elim (delete_project x s name) [
    | ok s' ↦ some s'
    | raise _ ↦ none
  ]
  drop_project Backend.chunk_store s name =
      some (record s { store = ChunkStore.delete_project s.store name })
  drop_project Backend.nothing s name = none

  -- `execute_eviction`: the stores afterwards, and the number of projects that were dropped.
  unfoldable pub execute_eviction : Backend → Stores V → List String → Stores V × ℕ
  unfolding drop_project
  execute_eviction backend s [] = (s, 0)
  execute_eviction backend s (name ∷ targets) = elim (drop_project backend s name) [
    | none ↦ execute_eviction backend s targets
    | some s' ↦ let (s'', n) = execute_eviction backend s' targets in (s'', n + 1)
  ]

  unfoldable pub maybe_evict :
      Backend → Stores V → ℕ → ℕ → ℕ → (String → Option ℕ) → List String → Stores V × EvictionPlan
  unfolding execute_eviction
  maybe_evict backend s current num den overrides pinned =
      let plan = plan_eviction x.utf8 s.store current num den overrides pinned in
      ((execute_eviction backend s plan.targets).0, plan)
