-- ===== src/Embed/Best.antt =====
-- `search_dense` of memmap_store.py, on a valid store.
use longctx.Base.{
  ℕ, ◌≤◌, ◌<◌, min, ◌≡◌, refl, ◌∙◌, Bool, true, false, not, ◌&&◌, Option, none, some, inl, inr,
  Bool-cases, List, [], arith, map, ltb, ◌==◌, ==_iff, if◌then◌else◌, length, get_elem?, take,
  contains, All, All-map, IsDistinct, length-take,
}
use mathlib.Core.Path.{subst}
use longctx.Base.Result.{ok}
use longctx.Embed.{MemmapEmbedStore, Numpy}
use longctx.Embed.Valid.{live, IsValid}
use longctx.Embed.Search.{Ranking, in_scope, finite_hits, masked_scores, score_at, search_dense}
use longctx.Embed.Top.{
  AtMost, IsTop, get_elem?-mask_from, length-mask_from, get_elem?-take, get_elem?-take_end,
  get_elem?-map, length-map,
}
use longctx.Embed.Hits.{
  rows_hit, finite_hits-All, hits-IsDistinct, hits_complete, length-hits, length-hits_all,
}

module _ {V S : Type 0} (np : Numpy V) (rk : Ranking V S) (s : MemmapEmbedStore V) (q : V)
    (scope : Option (List ℕ)) where
  -- The score of what a row holds.
  abbrev pub row_score : ℕ → Option S
  row_score r = elim (get_elem? s.rows r) [ none ↦ none | some v ↦ rk.score (np.as_float32 q) v ]

  -- A row that may be a hit, and its score.
  pub record IsEligible (r : ℕ) (score : S) : Type 0 where
    pub is_live : live s r ≡ true
    pub scoped : in_scope scope r ≡ true
    pub scored : row_score r ≡ some score

  score_at-masked :
      (r : ℕ)
      → score_at (masked_scores np rk s q scope) r
        ≡ (if live s r && in_scope scope r then row_score r else none)
  unfolding masked_scores
  score_at-masked r = elim (Bool-cases (ltb r s.state.num_rows)) [
    | inl below ↦ ground (
      arith,
      get_elem?-mask_from (λ i. not (contains i s.state.freelist) && in_scope scope i) 0
          (map (rk.score (np.as_float32 q)) (take s.state.num_rows s.rows)) r,
      get_elem?-map (rk.score (np.as_float32 q)) (take s.state.num_rows s.rows) r,
      get_elem?-take s.state.num_rows s.rows r (ground arith),
    )
    | inr above ↦ ground (
      arith,
      get_elem?-mask_from (λ i. not (contains i s.state.freelist) && in_scope scope i) 0
          (map (rk.score (np.as_float32 q)) (take s.state.num_rows s.rows)) r,
      get_elem?-map (rk.score (np.as_float32 q)) (take s.state.num_rows s.rows) r,
      get_elem?-take_end s.state.num_rows s.rows r (ground arith),
    )
  ]

  length-masked : IsValid s → length (masked_scores np rk s q scope) ≡ s.state.num_rows
  unfolding masked_scores
  length-masked h =
      length-mask_from _ 0 (map (rk.score (np.as_float32 q)) (take s.state.num_rows s.rows))
      ∙ length-map (rk.score (np.as_float32 q)) (take s.state.num_rows s.rows)
      ∙ omega (arith, length-take s.state.num_rows s.rows, h.file, h.within)

  IsEligible-score_at :
      (r : ℕ) (score : S)
      → score_at (masked_scores np rk s q scope) r ≡ some score
      → IsEligible r score
  IsEligible-score_at r score e = elim (Bool-cases (live s r && in_scope scope r)) [
    | inl pass ↦ record {
      is_live = ground arith;
      scoped = ground arith;
      scored = ground (arith, score_at-masked r);
    }
    | inr fail ↦ absurd (ground (arith, score_at-masked r))
  ]

  score_at-IsEligible :
      (r : ℕ) (score : S)
      → IsEligible r score
      → score_at (masked_scores np rk s q scope) r ≡ some score
  score_at-IsEligible r score e =
      let pass : (live s r && in_scope scope r) ≡ true = ground (arith, e.is_live, e.scoped) in
      score_at-masked r ∙ (rw pass (e.scored))

  -- What a search is to return.
  pub record IsBest (leq : S → S → Bool) (k : ℕ) (hits : List (ℕ × S)) : Type 0 where
    pub eligible : All (λ h. IsEligible h.0 h.1) hits
    pub distinct : IsDistinct (rows_hit hits)
    pub bounded : length hits ≤ k
    pub best :
        (r : ℕ) (score : S)
        → IsEligible r score
        → contains r (rows_hit hits) ≡ false
        → (length hits ≡ min k s.state.num_rows) × All (λ h. leq score h.1 ≡ true) hits

  AtMost-some :
      (leq : S → S → Bool) (a : S) (b : Option S)
      → AtMost leq (some a) b
      → (c : S) × (b ≡ some c) × (leq a c ≡ true)
  AtMost-some leq a none le = absurd le
  AtMost-some leq a (some c) le = (c, refl, le)

  top-IsBest :
      (leq : S → S → Bool) (k : ℕ) (idx : List ℕ)
      → IsValid s
      → IsTop leq (masked_scores np rk s q scope) (min k s.state.num_rows) idx
      → IsBest leq k (finite_hits (masked_scores np rk s q scope) idx)
  top-IsBest leq k idx h top =
      let os = masked_scores np rk s q scope in
      let found = finite_hits-All os idx idx (λ i m. m) in
      record {
        eligible =
            All-map _ _ (finite_hits os idx) (λ g both. IsEligible-score_at g.0 g.1 both.1) found;
        distinct = hits-IsDistinct os idx top.distinct;
        bounded = omega (arith, length-hits os idx, top.count);
        best = λ r score e out.
            let at = score_at-IsEligible r score e in
            let missed : contains r idx ≡ false = elim (Bool-cases (contains r idx)) [
              | inl m ↦ absurd (ground (arith, hits_complete os r score idx m at))
              | inr m ↦ m
            ] in
            let inside : r < length os = ground (arith, length-masked h, e.is_live) in
            let above : (i : ℕ) → contains i idx ≡ true → AtMost leq (some score) (score_at os i) =
              λ i m. subst (λ o. AtMost leq o (score_at os i)) at (top.best i r m inside missed) in
            (
              length-hits_all os idx (λ i m.
                    let (c, good, le) = AtMost-some leq score (score_at os i) (above i m) in
                    (c, good))
                  ∙ top.count,
              All-map _ _ (finite_hits os idx)
                  (λ g both. subst (AtMost leq (some score)) both.1 (above g.0 both.0)) found,
            );
      }

  -- On a valid store a search with a query of the right width succeeds, for a `k` above zero. Every hit
  -- is a live row in scope with its score, no row is hit twice, and there are at most `k` hits. Where
  -- a live row in scope with a finite score is no hit, there are as many hits as asked for (or as the
  -- store has rows), and none has a lower score. The condition on numpy is that the indices it gives
  -- are the best of an array.
  pub search_dense-IsBest :
      (leq : S → S → Bool) (k : ℕ)
      → IsValid s
      → np.width q ≡ s.dim
      → 0 < k
      → ((os : List (Option S)) (n : ℕ) → 0 < n → n ≤ length os → IsTop leq os n (rk.top os n))
      → (hits : List (ℕ × S)) × (search_dense np rk s q k scope ≡ ok hits) × IsBest leq k hits
  unfolding search_dense
  search_dense-IsBest leq k h wide pos tops = elim (Bool-cases (s.state.num_rows == 0)) [
    | inl empty ↦ (
      [],
      ground (arith, wide, ==_iff (np.width q) s.dim),
      record {
        eligible = tt;
        distinct = tt;
        bounded = omega arith;
        best = λ r score e out. absurd (ground (arith, e.is_live));
      },
    )
    | inr full ↦
        let os = masked_scores np rk s q scope in
        let n : ℕ = min k s.state.num_rows in
        (
          finite_hits os (rk.top os n),
          ground (arith, wide, h.mapped, ==_iff (np.width q) s.dim),
          top-IsBest leq k (rk.top os n) h
              (tops os n (ground arith) (omega (arith, length-masked h))),
        )
  ]
