-- ===== src/Searcher.antt =====
-- longctx_daemon/searcher.py: the fusion of the rankings, from `_rrf_fuse` to the relevance floor. A
-- Python float is a parameter of the model, with the operations that the code uses. The rankings
-- that go in, and the policy's weights, are arguments.
pub mod Results
pub mod Search
pub mod Fuse
pub mod Take
pub mod Firsts
pub mod Multi
pub mod Dense
pub mod InScope
pub mod Rows
pub mod Ids
pub mod Entries
pub mod Scoped
use longctx.Base.{
  ℕ, ◌+◌, max, min, String, Bool, true, false, not, ◌&&◌, ◌||◌, Option, none, some, List, [], ◌∷◌,
  ◌==◌, str_eq, if◌then◌else◌, leb, order_with, take, length,
}

-- What the searcher asks of a float. `le` is Python's `<=` on the scores, none of which is a NaN.
pub record Floats (F : Type 0) : Type 0 where
  pub of_nat : ℕ → F
  pub minus_one : F
  pub add : F → F → F
  pub sub : F → F → F
  pub mul : F → F → F
  pub div : F → F → F
  pub le : F → F → Bool

pub record Hit (F : Type 0) : Type 0 where
  pub chunk_id : ℕ
  pub score : F

-- The fields of `SearcherConfig` that the stages from the fusion on read. `chars_per_token` is above
-- zero.
pub record SearcherConfig (F : Type 0) : Type 0 where
  pub rrf_k : ℕ
  pub bm25_weight : F
  pub dense_weight : F
  pub default_top_k_for_fusion : ℕ
  pub chars_per_token : ℕ
  pub relevance_floor : F
  pub project_floors : String → Option F
  pub dedup_by_doc_root : Bool

abbrev pub or_default : {A : Type 0} → Option A → A → A
or_default none a = a
or_default (some b) a = b

-- A dictionary from chunk ids to floats, in the order in which the keys came.
abbrev pub Table : Type 0 → Type 0
Table F = List (ℕ × F)

module _ {F : Type 0} where
  -- `table.get(id)`
  unfoldable pub table_get : ℕ → Table F → Option F
  table_get id [] = none
  table_get id ((j, s) ∷ rest) = let later = table_get id rest in if j == id then some s else later

  -- `table[id] = s`
  unfoldable pub table_put : ℕ → F → Table F → Table F
  table_put id s [] = (id, s) ∷ []
  table_put id s ((j, t) ∷ rest) =
      let later = table_put id s rest in if j == id then (j, s) ∷ rest else (j, t) ∷ later

module _ {F : Type 0} (fl : Floats F) where
  -- `a < b`
  abbrev pub below : F → F → Bool
  below a b = not (fl.le b a)

  unfoldable pub rrf_score : ℕ → ℕ → F
  rrf_score rank k = fl.div (fl.of_nat 1) (fl.of_nat (k + rank))

  -- The inner loop of `_rrf_fuse` over one ranking, from a rank on.
  unfoldable pub fuse_ranking : F → ℕ → ℕ → List (Hit F) → Table F → Table F
  unfolding rrf_score table_get table_put
  fuse_ranking w k rank [] fused = fused
  fuse_ranking w k rank (hit ∷ hits) fused = fuse_ranking w k (rank + 1) hits (
      table_put hit.chunk_id
        (fl.add (or_default (table_get hit.chunk_id fused) (fl.of_nat 0))
          (fl.mul w (rrf_score rank k)))
        fused)

  unfoldable pub fuse_rankings : F → ℕ → List (List (Hit F)) → Table F → Table F
  unfolding fuse_ranking
  fuse_rankings w k [] fused = fused
  fuse_rankings w k (ranking ∷ rest) fused =
      fuse_rankings w k rest (fuse_ranking w k 1 ranking fused)

  -- `(-score, chunk_id)`: the larger score first, and the smaller id where they are equal.
  unfoldable pub fused_before : ℕ × F → ℕ × F → Bool
  fused_before (i, s) (j, t) = below t s || fl.le t s && leb i j

  unfoldable pub rrf_fuse :
      SearcherConfig F → List (List (Hit F)) → List (List (Hit F)) → Option F → Option F → Table F
  unfolding fuse_rankings fused_before
  rrf_fuse config bm25_rankings dense_rankings bm25_weight dense_weight =
      let bw = or_default bm25_weight config.bm25_weight in
      let dw = or_default dense_weight config.dense_weight in
      order_with fused_before (
        fuse_rankings dw config.rrf_k dense_rankings
          (fuse_rankings bw config.rrf_k bm25_rankings []))

  -- The cut after the fusion: at `max_results`, widened by the ids to suppress, within `top_n`.
  unfoldable pub capped : SearcherConfig F → Option ℕ → ℕ → Table F → Table F
  capped config max_results suppress_count fused =
      let top_n = config.default_top_k_for_fusion in
      take (max (min (or_default max_results top_n + suppress_count) top_n) 1) fused

  -- The best cosine of each chunk over the queries.
  unfoldable pub best_of_ranking : List (Hit F) → Table F → Table F
  unfolding table_get table_put
  best_of_ranking [] table = table
  best_of_ranking (hit ∷ hits) table = best_of_ranking hits (
      if below (or_default (table_get hit.chunk_id table) fl.minus_one) hit.score
      then table_put hit.chunk_id hit.score table
      else table)

  unfoldable pub dense_cosines : List (List (Hit F)) → Table F → Table F
  unfolding best_of_ranking
  dense_cosines [] table = table
  dense_cosines (ranking ∷ rest) table = dense_cosines rest (best_of_ranking ranking table)

  -- The cosine of the chunk at the head of a table.
  unfoldable pub cosine_of_first : Table F → Table F → F
  unfolding table_get
  cosine_of_first cosines [] = fl.of_nat 0
  cosine_of_first cosines ((id, s) ∷ rest) = or_default (table_get id cosines) (fl.of_nat 0)

  unfoldable pub confidence_gap : F → F → F
  confidence_gap top1 top2 =
      let gap = fl.sub top1 top2 in if below (fl.of_nat 0) gap then gap else fl.of_nat 0

  -- The floor: the call's, else the primary project's, else the configuration's. An empty name has
  -- none of its own.
  unfoldable pub floor_for : SearcherConfig F → Option F → Option String → F
  floor_for config (some floor) primary = floor
  floor_for config none none = config.relevance_floor
  floor_for config none (some name) =
      if str_eq name ""
      then config.relevance_floor
      else or_default (config.project_floors name) config.relevance_floor

  unfoldable pub no_relevant_results : F → F → Table F → F → Bool
  no_relevant_results floor dense_weight [] top1 =
      below (fl.of_nat 0) floor && below (fl.of_nat 0) dense_weight
  no_relevant_results floor dense_weight (_ ∷ _) top1 =
      below (fl.of_nat 0) floor && below (fl.of_nat 0) dense_weight && below top1 floor
