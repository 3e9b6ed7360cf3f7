-- ===== src/Embed/Search.antt =====
-- `search_dense` of memmap_store.py: the best rows for a query. The scores and numpy's choice of the
-- best of them are a parameter.
use longctx.Base.{
  ℕ, ◌+◌, min, Bool, true, not, ◌&&◌, Option, none, some, List, [], ◌∷◌, map, ◌==◌, if◌then◌else◌,
  get_elem?, take, contains,
}
use longctx.Base.Result.{Result, ok, value_error, type_error, ◌>>◌, require}
use longctx.Embed.{MemmapEmbedStore, Numpy}

-- What `search_dense` asks of numpy: the score of a row for a query, `none` where it is not finite,
-- and the indices that `argpartition` and `argsort` give for the best `k` of an array of scores.
pub record Ranking (V S : Type 0) : Type 0 where
  pub score : V → V → Option S
  pub top : List (Option S) → ℕ → List ℕ

-- The rows that a search may return, where a scope is given.
unfoldable pub in_scope : Option (List ℕ) → ℕ → Bool
in_scope none r = true
in_scope (some rows) r = contains r rows

module _ {S : Type 0} where
  -- `np.where(mask, scores, -np.inf)`, from an index on.
  unfoldable pub mask_from : (ℕ → Bool) → ℕ → List (Option S) → List (Option S)
  mask_from allowed at [] = []
  mask_from allowed at (o ∷ os) = (if allowed at then o else none) ∷ mask_from allowed (at + 1) os

  -- `scores[i]`
  abbrev pub score_at : List (Option S) → ℕ → Option S
  score_at os i = elim (get_elem? os i) [ none ↦ none | some o ↦ o ]

  -- The loop that builds the hits: what is not finite is left out.
  unfoldable pub finite_hits : List (Option S) → List ℕ → List (ℕ × S)
  finite_hits scores [] = []
  finite_hits scores (i ∷ idx) =
      let rest = finite_hits scores idx in
      elim (score_at scores i) [ none ↦ rest | some s ↦ (i, s) ∷ rest ]

module _ {V S : Type 0} (np : Numpy V) (rk : Ranking V S) where
  -- Freed rows and rows out of scope count as not finite.
  unfoldable pub masked_scores : MemmapEmbedStore V → V → Option (List ℕ) → List (Option S)
  unfolding mask_from in_scope
  masked_scores s q scope =
      mask_from (λ r. not (contains r s.state.freelist) && in_scope scope r) 0
        (map (rk.score (np.as_float32 q)) (take s.state.num_rows s.rows))

  unfoldable pub search_dense : MemmapEmbedStore V → V → ℕ → Option (List ℕ) → Result (List (ℕ × S))
  unfolding masked_scores finite_hits
  search_dense s q k scope = if k == 0 then ok [] else do
    require (np.width q == s.dim) value_error
    if s.state.num_rows == 0 then ok [] else do
      require s.mapped type_error
      let scores = masked_scores s q scope
      ok (finite_hits scores (rk.top scores (min k s.state.num_rows)))
