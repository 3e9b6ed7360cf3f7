-- ===== src/Searcher/Multi.antt =====
-- searcher.py: the chunks over the groups of `search_multi`.
use longctx.Base.{
  ℕ, ◌≡◌, refl, ap, ◌∙◌, sym, true, false, Bool-cases, Option, some, inl, inr, List, [], ◌∷◌, ◌++◌,
  map, arith, contains, contains-append, IsDistinct, take,
}
use longctx.Base.Distinct.{
  IsThinned, IsThinned-nil, IsThinned-trans, take-IsThinned, append-IsDistinct,
}
use longctx.ChunkStore.{ChunkStore, Chunk}
use longctx.ChunkStore.Queries.{get_chunks_by_id}
use longctx.Searcher.{Floats, SearcherConfig, or_default, capped}
use longctx.Searcher.Results.{SearchChunk, ranked_from}
use longctx.Searcher.Search.{
  Found, Request, SearchResult, taking, cut, ranked_chunks, search, unless_empty, search_groups,
  search_multi,
}
use longctx.Searcher.Fuse.{rrf_fuse-IsDistinct}
use longctx.Searcher.Take.{eligible, taking_of, search-take}
use longctx.Searcher.Entries.{keys}
use longctx.Searcher.Ids.{
  ids, ranked_from-IsThinned, re_ranked-IsThinned, chosen-IsThinned, eligible_shows,
}

unless_empty_lem : (seen : List ℕ) → or_default (unless_empty seen) [] ≡ seen
unless_empty_lem [] = refl
unless_empty_lem (i ∷ seen) = refl

module _ {F : Type 0} where
  -- The ids of the chunks that a search shows.
  abbrev pub shown_ids : SearchResult F → List ℕ
  shown_ids result = map (λ c. c.chunk_id) result.chunks

  abbrev pub all_shown : List (SearchResult F) → List ℕ
  all_shown [] = []
  all_shown (g ∷ gs) = shown_ids g ++ all_shown gs

-- Distinct ids, none of them among those to suppress.
abbrev pub IsApart : List ℕ → List ℕ → Type 0
IsApart shown suppressed =
    IsDistinct shown × ((i : ℕ) → contains i shown ≡ true → contains i suppressed ≡ false)

module _ {F : Type 0} (fl : Floats F) (config : SearcherConfig F) (st : ChunkStore) where
  shown-id :
      (r : Request F) (found : Found F) (suppress_ids : Option (List ℕ)) (es : List (Chunk × F))
      → map
          (λ (c : SearchChunk F). c.chunk_id)
          (map (λ e. (taking_of fl config st r found suppress_ids).shown e.0 e.1) es)
        ≡ ids es
  unfolding taking
  shown-id r found suppress_ids [] = refl
  shown-id r found suppress_ids ((c, s) ∷ es) = ap (◌∷◌ c.id) (shown-id r found suppress_ids es)

  cut-IsDistinct :
      (r : Request F) (found : Found F) (suppress_ids : Option (List ℕ))
      → IsDistinct (keys (cut fl config st r found suppress_ids))
  unfolding cut capped
  cut-IsDistinct r found suppress_ids = (take-IsThinned (λ e. e.0) _ _).distinct (
      rrf_fuse-IsDistinct fl config found.bm25_rankings found.dense_rankings (some r.bm25_weight)
        (some r.dense_weight))

  ranked_chunks-IsThinned :
      (r : Request F) (found : Found F) (suppress_ids : Option (List ℕ))
      → IsThinned
          (ids (ranked_chunks fl config st r found suppress_ids))
          (keys (cut fl config st r found suppress_ids))
  unfolding ranked_chunks
  ranked_chunks-IsThinned r found suppress_ids =
      let fused = cut fl config st r found suppress_ids in
      let fetched = get_chunks_by_id st (map (λ e. e.0) fused) in
      IsThinned-trans _ (ids (ranked_from fetched fused)) _
        (re_ranked-IsThinned fl found.augment_weight (ranked_from fetched fused))
        (ranked_from-IsThinned fetched fused)

  search_nothing :
      (r : Request F) (found : Found F) (suppress_ids : Option (List ℕ))
      → (search fl config st r found suppress_ids).no_relevant_results ≡ true
      → (search fl config st r found suppress_ids).chunks ≡ []
  unfolding search
  search_nothing r found suppress_ids e = rw e refl

  search_shown :
      (r : Request F) (found : Found F) (suppress_ids : Option (List ℕ))
      → (search fl config st r found suppress_ids).no_relevant_results ≡ false
      → (n : ℕ) × (shown_ids (search fl config st r found suppress_ids)
          ≡ ids (
              take n (
                eligible
                  (taking_of fl config st r found suppress_ids)
                  []
                  (ranked_chunks fl config st r found suppress_ids))))
  search_shown r found suppress_ids e =
      let (n, g) = search-take fl config st r found suppress_ids e in
      (
        n,
        ap (λ cs. map (λ (c : SearchChunk F). c.chunk_id) cs) g.shown
            ∙ shown-id r found suppress_ids _,
      )

  taking-suppress_ids :
      (r : Request F) (found : Found F) (suppress_ids : Option (List ℕ))
      → (taking_of fl config st r found suppress_ids).suppress_ids ≡ or_default suppress_ids []
  unfolding taking
  taking-suppress_ids r found suppress_ids = refl

  -- What is shown, out of what is looked up.
  pub shown-IsThinned :
      (r : Request F) (found : Found F) (suppress_ids : Option (List ℕ))
      → IsThinned
          (shown_ids (search fl config st r found suppress_ids))
          (keys (cut fl config st r found suppress_ids))
  shown-IsThinned r found suppress_ids =
      elim (Bool-cases (search fl config st r found suppress_ids).no_relevant_results) [
        | inl nothing ↦ rw (search_nothing r found suppress_ids nothing) (IsThinned-nil _)
        | inr relevant ↦
            let (n, e) = search_shown r found suppress_ids relevant in
            rw e (
              IsThinned-trans _ (ids (ranked_chunks fl config st r found suppress_ids)) _
                (chosen-IsThinned (taking_of fl config st r found suppress_ids) n
                  (ranked_chunks fl config st r found suppress_ids))
                (ranked_chunks-IsThinned r found suppress_ids))
      ]

  search_unsuppressed :
      (r : Request F) (found : Found F) (suppress_ids : Option (List ℕ)) (i : ℕ)
      → contains i (shown_ids (search fl config st r found suppress_ids)) ≡ true
      → contains i (or_default suppress_ids []) ≡ false
  search_unsuppressed r found suppress_ids i m =
      elim (Bool-cases (search fl config st r found suppress_ids).no_relevant_results) [
        | inl nothing ↦ absurd (
            ground (
              arith,
              ap (λ cs. contains i (map (λ (c : SearchChunk F). c.chunk_id) cs))
                  (search_nothing r found suppress_ids nothing),
              m,
            ))
        | inr relevant ↦
            let t = taking_of fl config st r found suppress_ids in
            let ranked = ranked_chunks fl config st r found suppress_ids in
            let (n, e) = search_shown r found suppress_ids relevant in
            ap (contains i) (sym (taking-suppress_ids r found suppress_ids))
            ∙ eligible_shows t [] ranked i
                ((take-IsThinned (λ e. e.0.id) n (eligible t [] ranked)).inside i (rw e at m))
      ]

  search-IsApart :
      (r : Request F) (found : Found F) (suppress_ids : Option (List ℕ))
      → IsApart (shown_ids (search fl config st r found suppress_ids)) (or_default suppress_ids [])
  search-IsApart r found suppress_ids = (
    (shown-IsThinned r found suppress_ids).distinct (cut-IsDistinct r found suppress_ids),
    search_unsuppressed r found suppress_ids,
  )

  search_groups-IsApart :
      (r : Request F) (queries : List (Found F)) (seen : List ℕ)
      → IsApart (all_shown (search_groups fl config st r queries seen)) seen
  unfolding search_groups
  search_groups-IsApart r [] seen = (tt, λ i m. absurd (ground arith))
  search_groups-IsApart r (found ∷ rest) seen =
      let (d, apart) = search-IsApart r found (unless_empty seen) in
      let shown = shown_ids (search fl config st r found (unless_empty seen)) in
      let (d', apart') = search_groups-IsApart r rest (seen ++ shown) in
      (
        append-IsDistinct shown _ d d'
            (λ i m. ground (arith, apart' i m, contains-append i seen shown)),
        λ i m. elim (Bool-cases (contains i shown)) [
          | inl now ↦ ap (contains i) (sym (unless_empty_lem seen)) ∙ apart i now
          | inr not_now ↦ ground (
            arith,
            apart' i,
            contains-append i seen shown,
            contains-append i shown (all_shown (search_groups fl config st r rest (seen ++ shown))),
            m,
          )
        ],
      )

  -- No chunk is in two groups of a `search_multi`, nor twice in one, whatever its queries find; and no
  -- group has a chunk that the caller suppresses.
  pub search_multi-IsApart :
      (r : Request F) (queries : List (Found F)) (suppress_ids : Option (List ℕ))
      → IsApart
          (all_shown (search_multi fl config st r queries suppress_ids))
          (or_default suppress_ids [])
  unfolding search_multi
  search_multi-IsApart r queries suppress_ids =
      search_groups-IsApart r queries (or_default suppress_ids [])
