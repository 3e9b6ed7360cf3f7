-- ===== src/Searcher/InScope.antt =====
-- searcher.py: what the dense stage returns, and the scope.
use longctx.Base.{
  ℕ, ◌<◌, ◌≤◌, ◌≡◌, refl, sym, Bool, true, Option, some, List, [], ◌∷◌, map, arith, contains,
  contains-append, All, length, In-any, In, String,
}
use longctx.Base.Result.{ok}
use longctx.ChunkStore.{Chunk}
use longctx.ChunkStore.Queries.{
  list_chunk_ids_in_scope, in_projects, has_embedding_row, get_chunk_ids_by_embedding_rows,
}
use longctx.Embed.Top.{IsTop}
use longctx.Embed.Hits.{rows_hit}
use longctx.Embed.Search.{Ranking, in_scope}
use longctx.Embed.Best.{row_score, IsEligible, search_dense-IsBest}
use longctx.Indexer.{Externals, Stores}
use longctx.Indexer.Consistent.{IsConsistent}
use longctx.Searcher.{Hit}
use longctx.Searcher.Search.{set_of}
use longctx.Searcher.Dense.{
  filter_for, rows_for, rows_in, ScopeDecision, scope_to_embedding_rows, translated,
  raw_dense_rankings, dense_stage,
}
use longctx.Searcher.Rows.{rows_of_scope, HasKeys, allowed-In, last-In, row_named, translated_id}

module _ {V S : Type 0} (x : Externals V) (rk : Ranking V S) (s : Stores V)
    (fanout : List String) where
  -- A hit for a query that is a chunk of the scope's projects, with the score that the ranking gives
  -- to the query and the embedding of the chunk's text.
  pub record IsScopedHit (q : V) (hit : Hit S) : Type 0 where
    pub chunk : Chunk
    pub stored : In chunk s.store.chunks
    pub named : hit.chunk_id ≡ chunk.id
    pub scoped : in_projects s.store fanout chunk ≡ true
    pub scored :
        rk.score (x.numpy.as_float32 q) (x.numpy.as_float32 (x.encode chunk.text)) ≡ some hit.score

  -- One ranking for each query, and each of them made of such hits.
  abbrev pub AreScoped : List V → List (List (Hit S)) → Type 0
  AreScoped [] [] = Unit
  AreScoped [] (_ ∷ _) = ⊥
  AreScoped (_ ∷ _) [] = ⊥
  AreScoped (q ∷ qs) (ranking ∷ rest) = All (IsScopedHit q) ranking × AreScoped qs rest

module _ {V S : Type 0} (x : Externals V) (rk : Ranking V S) (s : Stores V) (h : IsConsistent x s)
    (keyed : HasKeys s.store) (p : String) (ps : List String) where
  abbrev allowed : Option (List ℕ)
  allowed = some (rows_for s.store (list_chunk_ids_in_scope s.store (filter_for (p ∷ ps))))

  hit-IsScopedHit :
      (all : List ℕ) (q : V) (r : ℕ) (score : S)
      → contains r all ≡ true
      → IsEligible x.numpy rk s.embed q allowed r score
      → IsScopedHit x rk s
          (p ∷ ps)
          q
          (translated (get_chunk_ids_by_embedding_rows s.store (set_of all)) (r, score))
  unfolding in_scope
  hit-IsScopedHit all q r score m e =
      let (c, there, within, row) = allowed-In s.store p ps r keyed e.scoped in
      let (d, found, there', row') =
        last-In (has_embedding_row r) s.store.chunks
          (In-any (has_embedding_row r) c s.store.chunks there row) in
      let same = (h.shared c d r there there' (row_named r c row) (row_named r d row')).0 in
      rw (translated_id s.store all r score d m found) (record {
        chunk = d;
        stored = there';
        named = refl;
        scoped = rw (sym same) within;
        scored = rw (h.content d r there' (row_named r d row'), row_score) at e.scored;
      })

  hits-IsScopedHit :
      (all : List ℕ) (q : V) (hits : List (ℕ × S))
      → All (λ hit. IsEligible x.numpy rk s.embed q allowed hit.0 hit.1) hits
      → ((r : ℕ) → contains r (rows_hit hits) ≡ true → contains r all ≡ true)
      → All
          (IsScopedHit x rk s (p ∷ ps) q)
          (map (translated (get_chunk_ids_by_embedding_rows s.store (set_of all))) hits)
  hits-IsScopedHit all q [] e sub = tt
  hits-IsScopedHit all q ((r, score) ∷ hits) (here, rest) sub = (
    hit-IsScopedHit all q r score (sub r (ground arith)) here,
    hits-IsScopedHit all q hits rest (λ i m. sub i (ground arith)),
  )

  -- One ranking for each query, with hits that may be hit.
  abbrev AreEligible : List V → List (List (ℕ × S)) → Type 0
  AreEligible [] [] = Unit
  AreEligible [] (_ ∷ _) = ⊥
  AreEligible (_ ∷ _) [] = ⊥
  AreEligible (q ∷ qs) (ranking ∷ rest) =
      All (λ hit. IsEligible x.numpy rk s.embed q allowed hit.0 hit.1) ranking × AreEligible qs rest

  rankings-AreScoped :
      (all : List ℕ) (qs : List V) (raw : List (List (ℕ × S)))
      → AreEligible qs raw
      → ((r : ℕ) → contains r (rows_in raw) ≡ true → contains r all ≡ true)
      → AreScoped x rk s (p ∷ ps) qs (
          map
            (λ ranking.
              map (translated (get_chunk_ids_by_embedding_rows s.store (set_of all))) ranking)
            raw)
  rankings-AreScoped all [] [] e sub = tt
  rankings-AreScoped all [] (_ ∷ _) e sub = absurd e
  rankings-AreScoped all (q ∷ qs) [] e sub = absurd e
  rankings-AreScoped all (q ∷ qs) (hits ∷ raw) (here, rest) sub = (
    hits-IsScopedHit all q hits here
        (λ r m. sub r (ground (arith, contains-append r (rows_hit hits) (rows_in raw)))),
    rankings-AreScoped all qs raw rest
        (λ r m. sub r (ground (arith, contains-append r (rows_hit hits) (rows_in raw)))),
  )

  module _ (leq : S → S → Bool) (top_n : ℕ) (pos : 0 < top_n)
      (tops : (os : List (Option S)) (n : ℕ)
        → 0 < n
        → n ≤ length os
        → IsTop leq os n (rk.top os n)) where
    raw-AreEligible :
        (qs : List V)
        → All (λ q. x.numpy.width q ≡ s.embed.dim) qs
        → (raw : List (List (ℕ × S))) × (raw_dense_rankings x.numpy rk s.embed top_n allowed qs
            ≡ ok raw)
          × AreEligible qs raw
    unfolding raw_dense_rankings
    raw-AreEligible [] wide = ([], refl, tt)
    raw-AreEligible (q ∷ qs) (here, wide) =
        let (hits, run, best) =
          search_dense-IsBest x.numpy rk s.embed q allowed leq top_n h.valid here pos tops in
        let (raw, runs, e) = raw-AreEligible qs wide in
        (hits ∷ raw, rw (run, runs) refl, (best.eligible, e))

    -- On consistent stores, whose chunks are told apart by their ids, the dense stage succeeds for
    -- queries of the store's width. It gives a ranking for each query, and every hit is a chunk of a
    -- project that the scope names, where it names any, under the id of the chunk, with the score
    -- of the query against the embedding of the chunk's text.
    pub dense_stage-AreScoped :
        (scope : ScopeDecision) (qs : List V)
        → scope.fanout_projects ≡ p ∷ ps
        → All (λ q. x.numpy.width q ≡ s.embed.dim) qs
        → (rankings : List (List (Hit S))) × (dense_stage x.numpy rk s.embed s.store top_n scope qs
            ≡ ok rankings)
          × AreScoped x rk s (p ∷ ps) qs rankings
    unfolding dense_stage scope_to_embedding_rows
    dense_stage-AreScoped scope qs names wide =
        let (raw, run, e) = raw-AreEligible qs wide in
        (
          _,
          rw (rows_of_scope s.store scope p ps names, run) refl,
          rankings-AreScoped (rows_in raw) qs raw e (λ r m. m),
        )
