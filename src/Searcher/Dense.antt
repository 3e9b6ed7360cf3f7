-- ===== src/Searcher/Dense.antt =====
-- searcher.py: the dense stage of `search`, between the two stores: the rows that a scope allows, and
-- the translation of the rows that are hit to chunk ids. The stage runs where the dense weight is
-- above zero.
use longctx.Base.{ℕ, String, Option, none, some, List, [], ◌∷◌, ◌++◌, map}
use longctx.Base.Result.{Result, ok, ◌>>=◌}
use longctx.Embed.{MemmapEmbedStore, Numpy}
use longctx.Embed.Search.{Ranking, search_dense}
use longctx.ChunkStore.{ChunkStore, ScopeFilter}
use longctx.ChunkStore.Queries.{
  list_chunk_ids_in_scope, get_embedding_rows_by_chunk_ids, get_chunk_ids_by_embedding_rows,
}
use longctx.Searcher.{Hit, or_default}
use longctx.Searcher.Search.{set_of}

pub record ScopeDecision : Type 0 where
  pub primary_project : Option String
  pub primary_source : String
  pub fanout_projects : List String
  pub cross_project_pattern_matched : Option String
  pub active_project_sticky : Option String

abbrev pub filter_for : List String → Option ScopeFilter
filter_for [] = none
filter_for (p ∷ []) = some (record { project = some p; project_in = none })
filter_for (p ∷ q ∷ ps) = some (record { project = none; project_in = some (p ∷ q ∷ ps) })

abbrev pub scope_to_filter : ScopeDecision → Option ScopeFilter
scope_to_filter scope = filter_for scope.fanout_projects

abbrev pub rows_for : ChunkStore → List ℕ → List ℕ
rows_for st [] = []
rows_for st (i ∷ ids) = get_embedding_rows_by_chunk_ids st (i ∷ ids)

unfoldable pub scope_to_embedding_rows : ChunkStore → ScopeDecision → Option (List ℕ)
scope_to_embedding_rows st scope = elim (scope_to_filter scope) [
  | none ↦ none
  | some f ↦ some (rows_for st (list_chunk_ids_in_scope st (some f)))
]

module _ {S : Type 0} where
  -- The rows of the hits, over all rankings.
  abbrev pub rows_in : List (List (ℕ × S)) → List ℕ
  rows_in [] = []
  rows_in (ranking ∷ rest) = map (λ h. h.0) ranking ++ rows_in rest

  -- A hit by the id of its chunk; a row without one stands for itself.
  unfoldable pub translated : (ℕ → Option ℕ) → ℕ × S → Hit S
  translated row_to_chunk_id (r, s) = record {
    chunk_id = or_default (row_to_chunk_id r) r;
    score = s;
  }

module _ {V S : Type 0} (np : Numpy V) (rk : Ranking V S) (embed : MemmapEmbedStore V) where
  unfoldable pub raw_dense_rankings : ℕ → Option (List ℕ) → List V → Result (List (List (ℕ × S)))
  raw_dense_rankings top_n rows [] = ok []
  raw_dense_rankings top_n rows (q ∷ qs) = do
    ranking ← search_dense np rk embed q top_n rows
    rest ← raw_dense_rankings top_n rows qs
    ok (ranking ∷ rest)

  unfoldable pub dense_stage :
      ChunkStore → ℕ → ScopeDecision → List V → Result (List (List (Hit S)))
  unfolding raw_dense_rankings scope_to_embedding_rows translated set_of
  dense_stage st top_n scope query_embs = do
    raw ← raw_dense_rankings top_n (scope_to_embedding_rows st scope) query_embs
    let row_to_chunk_id = get_chunk_ids_by_embedding_rows st (set_of (rows_in raw))
    ok (map (λ ranking. map (translated row_to_chunk_id) ranking) raw)
