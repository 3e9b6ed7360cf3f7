-- ===== src/Searcher/Scoped.antt =====
-- searcher.py: the chunks that `search` shows, and the scope.
use longctx.Base.{
  ℕ, ◌+◌, ◌<◌, ◌≤◌, ◌≡◌, refl, ap, ◌∙◌, sym, String, Bool, true, ◌||◌, Bool-cases, Option, inl, inr,
  List, [], ◌∷◌, ◌++◌, map, arith, ◌==◌, contains, contains-append, order_with, All, In, length,
}
use longctx.Base.Result.{ok, ok_injective}
use longctx.Base.Distinct.{take-IsThinned, order_with-IsThinned}
use longctx.ChunkStore.{ChunkStore, Chunk}
use longctx.ChunkStore.Queries.{in_projects}
use longctx.Embed.Top.{IsTop}
use longctx.Embed.Search.{Ranking}
use longctx.Indexer.{Externals, Stores}
use longctx.Indexer.Consistent.{IsConsistent}
use longctx.Searcher.{
  Floats, Hit, SearcherConfig, Table, fuse_ranking, fuse_rankings, rrf_fuse, fused_before, capped,
}
use longctx.Searcher.Search.{Found, Request, cut, search}
use longctx.Searcher.Dense.{ScopeDecision, dense_stage}
use longctx.Searcher.Entries.{keys, contains-keys_put}
use longctx.Searcher.Rows.{HasKeys}
use longctx.Searcher.InScope.{IsScopedHit, AreScoped, dense_stage-AreScoped}
use longctx.Searcher.Multi.{shown_ids, shown-IsThinned}

-- The ids of the hits, over all rankings.
abbrev pub hit_ids : {F : Type 0} → List (List (Hit F)) → List ℕ
hit_ids [] = []
hit_ids (ranking ∷ rest) = map (λ hit. hit.chunk_id) ranking ++ hit_ids rest

module _ {F : Type 0} (fl : Floats F) where
  fuse_ranking-hits :
      (w : F) (k rank : ℕ) (hits : List (Hit F)) (t : Table F) (i : ℕ)
      → contains i (keys (fuse_ranking fl w k rank hits t))
        ≡ (contains i (map (λ (hit : Hit F). hit.chunk_id) hits) || contains i (keys t))
  unfolding fuse_ranking
  fuse_ranking-hits w k rank [] t i = refl
  fuse_ranking-hits w k rank (hit ∷ hits) t i =
      fuse_ranking-hits w k (rank + 1) hits _ i
      ∙ ap (λ b. contains i (map (λ (hit : Hit F). hit.chunk_id) hits) || b)
          (contains-keys_put i hit.chunk_id _ t)
      ∙ ground arith

  fuse_rankings-hits :
      (w : F) (k : ℕ) (rankings : List (List (Hit F))) (t : Table F) (i : ℕ)
      → contains i (keys (fuse_rankings fl w k rankings t))
        ≡ (contains i (hit_ids rankings) || contains i (keys t))
  unfolding fuse_rankings
  fuse_rankings-hits w k [] t i = refl
  fuse_rankings-hits w k (ranking ∷ rest) t i =
      fuse_rankings-hits w k rest (fuse_ranking fl w k 1 ranking t) i
      ∙ ap (λ b. contains i (hit_ids rest) || b) (fuse_ranking-hits w k 1 ranking t i)
      ∙ ground
          (arith, contains-append i (map (λ (hit : Hit F). hit.chunk_id) ranking) (hit_ids rest))

  -- A chunk that is looked up was hit.
  cut-hits :
      (config : SearcherConfig F) (st : ChunkStore) (r : Request F) (found : Found F)
      (suppress_ids : Option (List ℕ)) (i : ℕ)
      → contains i (keys (cut fl config st r found suppress_ids)) ≡ true
      → (contains i (hit_ids found.bm25_rankings) || contains i (hit_ids found.dense_rankings))
        ≡ true
  unfolding cut capped rrf_fuse
  cut-hits config st r found suppress_ids i m =
      let t = fuse_rankings fl r.bm25_weight config.rrf_k found.bm25_rankings [] in
      let u = fuse_rankings fl r.dense_weight config.rrf_k found.dense_rankings t in
      let m' =
        (order_with-IsThinned (λ e. e.0) (fused_before fl) u).inside i
          ((take-IsThinned (λ e. e.0) _ (order_with (fused_before fl) u)).inside i m) in
      ground (
        arith,
        fuse_rankings-hits r.dense_weight config.rrf_k found.dense_rankings t i,
        fuse_rankings-hits r.bm25_weight config.rrf_k found.bm25_rankings [] i,
        m',
      )

-- The id of a chunk of one of the projects.
abbrev pub IsOfScope : ChunkStore → List String → ℕ → Type 0
IsOfScope st fanout i = (c : Chunk) × In c st.chunks × (c.id ≡ i) × (in_projects st fanout c ≡ true)

module _ {V S : Type 0} (x : Externals V) (rk : Ranking V S) (s : Stores V)
    (fanout : List String) where
  hits-IsOfScope :
      (q : V) (ranking : List (Hit S)) (i : ℕ)
      → All (IsScopedHit x rk s fanout q) ranking
      → contains i (map (λ (hit : Hit S). hit.chunk_id) ranking) ≡ true
      → IsOfScope s.store fanout i
  hits-IsOfScope q [] i all m = absurd (ground arith)
  hits-IsOfScope q (hit ∷ ranking) i (here, rest) m = elim (Bool-cases (hit.chunk_id == i)) [
    | inl same ↦ (here.chunk, here.stored, sym (here.named) ∙ ground arith, here.scoped)
    | inr other ↦ hits-IsOfScope q ranking i rest (ground arith)
  ]

  rankings-IsOfScope :
      (qs : List V) (rankings : List (List (Hit S))) (i : ℕ)
      → AreScoped x rk s fanout qs rankings
      → contains i (hit_ids rankings) ≡ true
      → IsOfScope s.store fanout i
  rankings-IsOfScope [] [] i all m = absurd (ground arith)
  rankings-IsOfScope [] (_ ∷ _) i all m = absurd all
  rankings-IsOfScope (q ∷ qs) [] i all m = absurd all
  rankings-IsOfScope (q ∷ qs) (ranking ∷ rest) i (here, there) m =
      elim (Bool-cases (contains i (map (λ (hit : Hit S). hit.chunk_id) ranking))) [
        | inl first ↦ hits-IsOfScope q ranking i here first
        | inr later ↦ rankings-IsOfScope qs rest i there (
            ground (
              arith,
              contains-append i (map (λ (hit : Hit S). hit.chunk_id) ranking) (hit_ids rest),
            ))
      ]

-- A search shows chunks of the projects that the scope names, and no others, where it names any:
-- on consistent stores, whose chunks are told apart by their ids, where the dense stage ran for
-- queries of the store's width and the lexical hits are those of chunks of the scope.
pub search-IsOfScope :
    {V S : Type 0} (x : Externals V) (rk : Ranking V S) (fl : Floats S) (config : SearcherConfig S)
    (s : Stores V) (leq : S → S → Bool) (top_n : ℕ) (scope : ScopeDecision) (p : String)
    (ps : List String) (qs : List V) (r : Request S) (found : Found S)
    (suppress_ids : Option (List ℕ))
    → IsConsistent x s
    → HasKeys s.store
    → 0 < top_n
    → ((os : List (Option S)) (n : ℕ) → 0 < n → n ≤ length os → IsTop leq os n (rk.top os n))
    → scope.fanout_projects ≡ p ∷ ps
    → All (λ q. x.numpy.width q ≡ s.embed.dim) qs
    → dense_stage x.numpy rk s.embed s.store top_n scope qs ≡ ok found.dense_rankings
    → ((i : ℕ) → contains i (hit_ids found.bm25_rankings) ≡ true → IsOfScope s.store (p ∷ ps) i)
    → (i : ℕ) → contains i (shown_ids (search fl config s.store r found suppress_ids)) ≡ true
    → IsOfScope s.store (p ∷ ps) i
search-IsOfScope x rk fl config s leq top_n scope p ps qs r found suppress_ids h keyed pos tops
      names wide run lexical i m =
    let (rankings, run', scoped) =
      dense_stage-AreScoped x rk s h keyed p ps leq top_n pos tops scope qs names wide in
    let same = ok_injective rankings found.dense_rankings (sym run' ∙ run) in
    let hit =
      cut-hits fl config s.store r found suppress_ids i
        ((shown-IsThinned fl config s.store r found suppress_ids).inside i m) in
    elim (Bool-cases (contains i (hit_ids found.bm25_rankings))) [
      | inl by_words ↦ lexical i by_words
      | inr not_by_words ↦
          rankings-IsOfScope x rk s (p ∷ ps) qs rankings i scoped
            (ap (λ rs. contains i (hit_ids rs)) same ∙ ground arith)
    ]
