-- ===== src/Searcher/Search.antt =====
-- searcher.py: `search` from its rankings on, and `search_multi` over it.
use longctx.Base.{
  ℕ, String, Bool, ◌&&◌, ◌||◌, Option, none, some, List, [], ◌∷◌, ◌++◌, map, if◌then◌else◌,
  order_with, length, contains, drop,
}
use longctx.ChunkStore.{ChunkStore, Chunk}
use longctx.ChunkStore.Queries.{get_chunks_by_id}
use longctx.Searcher.{
  Floats, Hit, SearcherConfig, Table, or_default, below, table_get, rrf_fuse, capped, dense_cosines,
  cosine_of_first, confidence_gap, floor_for, no_relevant_results,
}
use longctx.Searcher.Results.{
  SearchChunk, Taking, build_citation, dedup_key, chunk_token_count, ranked_from, take_chunks,
}

-- What the stages before the fusion find for one query, and what the re-rank weighs its chunks by,
-- which is `none` where it does not apply.
pub record Found (F : Type 0) : Type 0 where
  pub bm25_rankings : List (List (Hit F))
  pub dense_rankings : List (List (Hit F))
  pub primary_project : Option String
  pub augment_weight : Option (Chunk → F)

-- The arguments of `search`, and the weights that the policy settles on.
pub record Request (F : Type 0) : Type 0 where
  pub max_tokens : ℕ
  pub max_results : Option ℕ
  pub relevance_floor : Option F
  pub dedup_by_doc_root : Option Bool
  pub bm25_weight : F
  pub dense_weight : F

pub record SearchResult (F : Type 0) : Type 0 where
  pub chunks : List (SearchChunk F)
  pub no_relevant_results : Bool
  pub top1_dense_cosine : F
  pub confidence_gap : F

-- The members of a set that is built from a list.
unfoldable pub set_of : List ℕ → List ℕ
set_of [] = []
set_of (i ∷ ids) = let rest = set_of ids in if contains i ids then rest else i ∷ rest

-- `accumulated_suppress if accumulated_suppress else None`
abbrev pub unless_empty : List ℕ → Option (List ℕ)
unless_empty [] = none
unless_empty (i ∷ ids) = some (i ∷ ids)

module _ {F : Type 0} (fl : Floats F) where
  -- `_augment_key`: the larger weight first, then the larger score; equals keep their order.
  unfoldable pub augment_before : (Chunk → F) → Chunk × F → Chunk × F → Bool
  augment_before weight (c, s) (d, t) =
      below fl (weight d) (weight c) || fl.le (weight d) (weight c) && fl.le t s

  unfoldable pub re_ranked : Option (Chunk → F) → List (Chunk × F) → List (Chunk × F)
  unfolding augment_before
  re_ranked none ranked = ranked
  re_ranked (some weight) ranked = order_with (augment_before weight) ranked

module _ {F : Type 0} (fl : Floats F) (config : SearcherConfig F) (st : ChunkStore) where
  unfoldable pub taking : Request F → Table F → Option (List ℕ) → Taking F
  unfolding table_get build_citation dedup_key chunk_token_count
  taking r cosines suppress_ids = record {
    suppress_ids = or_default suppress_ids [];
    dedup = or_default r.dedup_by_doc_root config.dedup_by_doc_root;
    key = dedup_key st;
    tokens = chunk_token_count config.chars_per_token;
    max_results = r.max_results;
    shown = λ chunk score. record {
      citation = build_citation st chunk;
      text = chunk.text;
      relevance_score = score;
      token_count = chunk_token_count config.chars_per_token chunk;
      dense_cosine = table_get chunk.id cosines;
      chunk_id = chunk.id;
    };
  }

  -- The fused ids that are looked up, the best first.
  unfoldable pub cut : Request F → Found F → Option (List ℕ) → Table F
  unfolding rrf_fuse capped set_of
  cut r found suppress_ids =
      capped fl config r.max_results (length (set_of (or_default suppress_ids []))) (
        rrf_fuse fl config found.bm25_rankings found.dense_rankings (some r.bm25_weight)
          (some r.dense_weight))

  unfoldable pub ranked_chunks : Request F → Found F → Option (List ℕ) → List (Chunk × F)
  unfolding cut ranked_from re_ranked
  ranked_chunks r found suppress_ids =
      let fused = cut r found suppress_ids in
      re_ranked fl found.augment_weight
        (ranked_from (get_chunks_by_id st (map (λ e. e.0) fused)) fused)

  unfoldable pub search : Request F → Found F → Option (List ℕ) → SearchResult F
  unfolding cut re_ranked taking dense_cosines cosine_of_first confidence_gap floor_for
      no_relevant_results ranked_from take_chunks
  search r found suppress_ids =
      let fused = cut r found suppress_ids in
      let cosines = dense_cosines fl found.dense_rankings [] in
      let top1 = cosine_of_first fl cosines fused in
      let top2 = cosine_of_first fl cosines (drop 1 fused) in
      let floor = floor_for fl config r.relevance_floor found.primary_project in
      let nothing = no_relevant_results fl floor r.dense_weight fused top1 in
      record {
        chunks =
            if nothing
            then []
            else take_chunks (taking r cosines suppress_ids) (ranked_chunks r found suppress_ids)
                r.max_tokens [] 0;
        no_relevant_results = nothing;
        top1_dense_cosine = top1;
        confidence_gap = confidence_gap fl top1 top2;
      }

  -- The loop of `search_multi` over what each of its queries finds: the groups.
  unfoldable pub search_groups : Request F → List (Found F) → List ℕ → List (SearchResult F)
  unfolding search
  search_groups r [] accumulated = []
  search_groups r (found ∷ rest) accumulated =
      let result = search r found (unless_empty accumulated) in
      result ∷ search_groups r rest (accumulated ++ map (λ c. c.chunk_id) result.chunks)

  unfoldable pub search_multi : Request F → List (Found F) → Option (List ℕ) → List (SearchResult F)
  unfolding search_groups
  search_multi r queries suppress_ids = search_groups r queries (or_default suppress_ids [])
