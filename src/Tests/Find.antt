-- ===== src/Tests/Find.antt =====
-- The searcher on two chunks of two projects, with whole numbers for floats.
use longctx.Base.{
  contains, ℕ, ◌+◌, ◌-◌, ◌*◌, ◌/◌, ◌≡◌, refl, true, false, none, some, inl, inr, List, [], ◌∷◌,
  arith, leb, map,
}
use longctx.Base.Ordered.{IsOrder}
use longctx.Base.Result.{ok}
use longctx.ChunkStore.{Chunk, get_file_by_id}
use longctx.Embed.Search.{search_dense, masked_scores, mask_from, in_scope, finite_hits}
use longctx.ChunkStore.Queries.{
  batches_from, ibatched, fetch, last, pick, get_chunks_by_id, get_embedding_rows_by_chunk_ids,
  rows_of, get_chunk_ids_by_embedding_rows, list_chunk_ids_in_scope, scope_projects,
}
use longctx.Searcher.{
  Floats, Hit, SearcherConfig, rrf_score, table_get, table_put, fuse_ranking, fuse_rankings,
  fused_before, rrf_fuse, capped, best_of_ranking, dense_cosines, cosine_of_first, confidence_gap,
  floor_for, no_relevant_results,
}
use longctx.Searcher.Results.{
  digits, build_citation, all_hex, is_hash_suffix, strip_hash, dedup_key, chunk_token_count,
  ranked_from, take_chunks, is_seen, see,
}
use longctx.Searcher.Search.{
  Found, Request, set_of, re_ranked, taking, cut, ranked_chunks, search, search_groups,
  search_multi,
}
use longctx.Searcher.Fuse.{IsFused, rrf_fuse-IsFused}
use longctx.Searcher.Take.{taking_of, IsGreedy}
use longctx.Searcher.Firsts.{AreFirsts, search-IsGreedy}
use longctx.Searcher.Multi.{shown_ids, all_shown, IsApart, search_multi-IsApart}
use longctx.Searcher.Dense.{
  ScopeDecision, dense_stage, raw_dense_rankings, scope_to_embedding_rows, translated,
}
use longctx.Searcher.Scoped.{hit_ids, IsOfScope, search-IsOfScope}
use longctx.Searcher.Rows.{HasKeys}
use longctx.Searcher.InScope.{AreScoped, dense_stage-AreScoped}
use longctx.Scope.Paths.{codes}
use longctx.Tests.Index.{externals, old_chunk, stores, stores-IsConsistent}
use longctx.Tests.Queries.{wide}
use longctx.Tests.Search.{ranking, rank-IsTop}

-- Thousandths.
abbrev floats : Floats ℕ
floats = record {
  of_nat = λ n. n * 1000;
  minus_one = 0;
  add = λ a b. a + b;
  sub = λ a b. a - b;
  mul = λ a b. a * b / 1000;
  div = λ a b. a * 1000 / b;
  le = leb;
}

leb-IsOrder : IsOrder leb
leb-IsOrder = record { total = λ a b h. ground arith; trans = λ a b c h h'. ground arith }

abbrev settings : SearcherConfig ℕ
settings = record {
  rrf_k = 9;
  bm25_weight = 1000;
  dense_weight = 1000;
  default_top_k_for_fusion = 2;
  chars_per_token = 4;
  relevance_floor = 500;
  project_floors = λ name. none;
  dedup_by_doc_root = false;
}

abbrev request : Request ℕ
request = record {
  max_tokens = 10;
  max_results = none;
  relevance_floor = none;
  dedup_by_doc_root = some true;
  bm25_weight = 1000;
  dense_weight = 1000;
}

abbrev hit : ℕ → ℕ → Hit ℕ
hit id s = record { chunk_id = id; score = s }

abbrev bm25 : List (List (Hit ℕ))
bm25 = (hit 1 7 ∷ hit 2 3 ∷ []) ∷ []

abbrev dense : List (List (Hit ℕ))
dense = (hit 2 900 ∷ []) ∷ []

abbrev found : Found ℕ
found = record {
  bm25_rankings = bm25;
  dense_rankings = dense;
  primary_project = none;
  augment_weight = none;
}

-- The second chunk is second in one ranking and first in the other.
rrf_fuse_run : rrf_fuse floats settings bm25 dense none none ≡ (2, 190) ∷ (1, 100) ∷ []
unfolding rrf_fuse fuse_rankings fuse_ranking rrf_score table_get table_put fused_before
rrf_fuse_run = refl

rrf_fuse-IsFused_example :
    IsFused floats
      (rrf_fuse floats settings bm25 dense (some 1000) (some 1000))
      9
      1000
      1000
      bm25
      dense
rrf_fuse-IsFused_example = rrf_fuse-IsFused floats settings bm25 dense 1000 1000 leb-IsOrder

relevant : (search floats settings wide request found (some (2 ∷ []))).no_relevant_results ≡ false
unfolding search cut rrf_fuse fuse_rankings fuse_ranking rrf_score table_get table_put fused_before
    capped set_of dense_cosines best_of_ranking cosine_of_first floor_for no_relevant_results
relevant = refl

search-IsGreedy_example :
    (es : List (Chunk × ℕ)) × AreFirsts
      (taking_of floats settings wide request found (some (2 ∷ [])))
      []
      (ranked_chunks floats settings wide request found (some (2 ∷ [])))
      es
    × (n : ℕ) × IsGreedy
        (taking_of floats settings wide request found (some (2 ∷ [])))
        es
        10
        0
        n
        (search floats settings wide request found (some (2 ∷ []))).chunks
search-IsGreedy_example =
    search-IsGreedy floats settings wide request found (some (2 ∷ [])) relevant

search_multi-IsApart_example :
    IsApart
      (all_shown (search_multi floats settings wide request (found ∷ found ∷ []) (some (2 ∷ []))))
      (2 ∷ [])
search_multi-IsApart_example =
    search_multi-IsApart floats settings wide request (found ∷ found ∷ []) (some (2 ∷ []))

-- The first query shows both chunks, the second none.
search_multi_run :
    map shown_ids (search_multi floats settings wide request (found ∷ found ∷ []) none)
    ≡ (2 ∷ 1 ∷ []) ∷ [] ∷ []
unfolding search_multi search_groups search cut rrf_fuse fuse_rankings fuse_ranking rrf_score
    table_get table_put fused_before capped set_of dense_cosines best_of_ranking cosine_of_first
    confidence_gap floor_for no_relevant_results ranked_chunks re_ranked ranked_from take_chunks
    taking get_chunks_by_id pick fetch ibatched batches_from last is_seen see dedup_key strip_hash
    is_hash_suffix all_hex chunk_token_count get_file_by_id
search_multi_run = refl

abbrev narrow : SearcherConfig ℕ
narrow = record settings { default_top_k_for_fusion = 1 }

-- Without `max_results` the widened cap is cut back to `top_n`: with the leading chunk suppressed the
-- other one is not reached.
starved_run : shown_ids (search floats narrow wide request found (some (2 ∷ []))) ≡ []
unfolding search cut rrf_fuse fuse_rankings fuse_ranking rrf_score table_get table_put fused_before
    capped set_of dense_cosines best_of_ranking cosine_of_first confidence_gap floor_for
    no_relevant_results ranked_chunks re_ranked ranked_from take_chunks taking get_chunks_by_id pick
    fetch ibatched batches_from last is_seen see dedup_key strip_hash is_hash_suffix all_hex
    chunk_token_count get_file_by_id
starved_run = refl

abbrev scope : ScopeDecision
scope = record {
  primary_project = some "p";
  primary_source = "explicit_project";
  fanout_projects = "p" ∷ [];
  cross_project_pattern_matched = none;
  active_project_sticky = none;
}

stores-HasKeys : HasKeys stores.store
stores-HasKeys c d (inl e) (inl e') same = rw (← e, ← e') refl
stores-HasKeys c d (inr m) m' same = absurd m
stores-HasKeys c d (inl e) (inr m) same = absurd m

dense_stage-AreScoped_example :
    (rankings : List (List (Hit ℕ))) × (dense_stage externals.numpy ranking stores.embed
        stores.store 2 scope
        ((1 ∷ 0 ∷ []) ∷ [])
      ≡ ok rankings)
    × AreScoped externals ranking stores ("p" ∷ []) ((1 ∷ 0 ∷ []) ∷ []) rankings
dense_stage-AreScoped_example =
    dense_stage-AreScoped externals ranking stores stores-IsConsistent stores-HasKeys "p" [] leb 2
      (omega arith) (λ os n pos le. rank-IsTop os n le) scope ((1 ∷ 0 ∷ []) ∷ []) refl (refl, tt)

-- What the dense stage and a lexical hit find of the only chunk.
abbrev found_one : Found ℕ
found_one = record {
  bm25_rankings = (hit 1 7 ∷ []) ∷ [];
  dense_rankings = (hit 1 1 ∷ []) ∷ [];
  primary_project = some "p";
  augment_weight = none;
}

dense_stage_run :
    dense_stage externals.numpy ranking stores.embed stores.store 2 scope ((1 ∷ 0 ∷ []) ∷ [])
    ≡ ok found_one.dense_rankings
unfolding dense_stage raw_dense_rankings scope_to_embedding_rows translated set_of search_dense
    masked_scores mask_from in_scope finite_hits list_chunk_ids_in_scope scope_projects
    get_embedding_rows_by_chunk_ids rows_of get_chunk_ids_by_embedding_rows fetch ibatched
    batches_from last
dense_stage_run = refl

lexical :
    (i : ℕ)
    → contains i (hit_ids found_one.bm25_rankings) ≡ true
    → IsOfScope stores.store ("p" ∷ []) i
lexical i m = (old_chunk, inl refl, ground arith, refl)

abbrev permissive : Request ℕ
permissive = record request { relevance_floor = some 0 }

shown_run :
    contains 1 (shown_ids (search floats settings stores.store permissive found_one none)) ≡ true
unfolding search cut rrf_fuse fuse_rankings fuse_ranking rrf_score table_get table_put fused_before
    capped set_of dense_cosines best_of_ranking cosine_of_first confidence_gap floor_for
    no_relevant_results ranked_chunks re_ranked ranked_from take_chunks taking get_chunks_by_id pick
    fetch ibatched batches_from last is_seen see dedup_key strip_hash is_hash_suffix all_hex
    chunk_token_count get_file_by_id
shown_run = refl

search-IsOfScope_example : IsOfScope stores.store ("p" ∷ []) 1
search-IsOfScope_example =
    search-IsOfScope externals ranking floats settings stores leb 2 scope "p" [] ((1 ∷ 0 ∷ []) ∷ [])
      permissive found_one none stores-IsConsistent stores-HasKeys (omega arith)
      (λ os n pos le. rank-IsTop os n le) refl (refl, tt) dense_stage_run lexical 1 shown_run

-- A name that the ingest wrote, and one that only looks like it.
strip_hash_run :
    (strip_hash (codes "a.0123456789ab") ≡ codes "a")
    × (strip_hash (codes "a.0123456789abc") ≡ codes "a.0123456789abc")
unfolding strip_hash is_hash_suffix all_hex
strip_hash_run = (refl, refl)

-- A chunk whose file is gone is cited by its id.
build_citation_run :
    (build_citation wide (record old_chunk { id = 107; file_id = 9 })).file_path ≡ codes "chunk-107"
unfolding build_citation get_file_by_id digits
build_citation_run = refl
