-- ===== src/Searcher/Fuse.antt =====
-- searcher.py: what `_rrf_fuse` returns, against a sum over the rankings for each chunk.
use longctx.Base.{
  ℕ, ◌+◌, ◌≡◌, refl, ap, ◌∙◌, sym, Bool-cases, Option, none, some, inl, inr, List, [], ◌∷◌, ◌++◌,
  arith, ◌==◌, if◌then◌else◌, IsDistinct, In, In-order_with, order_with-In,
}
use longctx.Base.Ordered.{IsOrder, IsOrdered, order_with-IsOrdered}
use longctx.Base.Distinct.{order_with-IsThinned}
use longctx.Searcher.{
  Floats, Hit, SearcherConfig, Table, or_default, table_get, rrf_score, fuse_ranking, fuse_rankings,
  fused_before, rrf_fuse,
}
use longctx.Searcher.Entries.{
  keys, table_get_nil, table_get-table_put, table_put-IsDistinct, table_get-In, In-table_get,
}

module _ {F : Type 0} (fl : Floats F) where
  -- A float that is summed up from a dictionary's entry on.
  abbrev pub summed : Option F → List F → Option F
  summed sum [] = sum
  summed sum (x ∷ xs) = summed (some (fl.add (or_default sum (fl.of_nat 0)) x)) xs

  -- What a chunk gets from one ranking, from a rank on, and from several.
  abbrev pub votes : ℕ → F → ℕ → ℕ → List (Hit F) → List F
  votes id w k rank [] = []
  votes id w k rank (hit ∷ hits) =
      let rest = votes id w k (rank + 1) hits in
      if hit.chunk_id == id
      then fl.mul w (fl.div (fl.of_nat 1) (fl.of_nat (k + rank))) ∷ rest
      else rest

  abbrev pub all_votes : ℕ → F → ℕ → List (List (Hit F)) → List F
  all_votes id w k [] = []
  all_votes id w k (ranking ∷ rest) = votes id w k 1 ranking ++ all_votes id w k rest

  summed-append :
      (xs : List F) (o : Option F) (ys : List F) → summed o (xs ++ ys) ≡ summed (summed o xs) ys
  summed-append [] o ys = refl
  summed-append (x ∷ xs) o ys = summed-append xs _ ys

  table_get-fuse_ranking :
      (w : F) (k id rank : ℕ) (hits : List (Hit F)) (t : Table F)
      → table_get id (fuse_ranking fl w k rank hits t)
        ≡ summed (table_get id t) (votes id w k rank hits)
  unfolding fuse_ranking rrf_score
  table_get-fuse_ranking w k id rank [] t = refl
  table_get-fuse_ranking w k id rank (hit ∷ hits) t =
      let gain : Option F → F =
        λ o. fl.add (or_default o (fl.of_nat 0)) (fl.mul w (rrf_score fl rank k)) in
      elim (Bool-cases (hit.chunk_id == id)) [
        | inl here ↦
            let same : hit.chunk_id ≡ id = ground arith in
            rw here (
              table_get-fuse_ranking w k id (rank + 1) hits _
              ∙ ap (λ o. summed o (votes id w k (rank + 1) hits))
                  (table_get-table_put id hit.chunk_id (gain (table_get hit.chunk_id t)) t
                    ∙ ap (λ b. if b then some (gain (table_get hit.chunk_id t)) else table_get id t)
                        here
                    ∙ ap (λ i. some (gain (table_get i t))) same))
        | inr other ↦ rw other (
            table_get-fuse_ranking w k id (rank + 1) hits _
            ∙ ap (λ o. summed o (votes id w k (rank + 1) hits))
                (table_get-table_put id hit.chunk_id (gain (table_get hit.chunk_id t)) t
                  ∙ ap (λ b. if b then some (gain (table_get hit.chunk_id t)) else table_get id t)
                      other))
      ]

  fuse_ranking-IsDistinct :
      (w : F) (k rank : ℕ) (hits : List (Hit F)) (t : Table F)
      → IsDistinct (keys t)
      → IsDistinct (keys (fuse_ranking fl w k rank hits t))
  unfolding fuse_ranking
  fuse_ranking-IsDistinct w k rank [] t d = d
  fuse_ranking-IsDistinct w k rank (hit ∷ hits) t d =
      fuse_ranking-IsDistinct w k (rank + 1) hits _ (table_put-IsDistinct hit.chunk_id _ t d)

  table_get-fuse_rankings :
      (w : F) (k id : ℕ) (rankings : List (List (Hit F))) (t : Table F)
      → table_get id (fuse_rankings fl w k rankings t)
        ≡ summed (table_get id t) (all_votes id w k rankings)
  unfolding fuse_rankings
  table_get-fuse_rankings w k id [] t = refl
  table_get-fuse_rankings w k id (ranking ∷ rest) t =
      table_get-fuse_rankings w k id rest (fuse_ranking fl w k 1 ranking t)
      ∙ ap (λ o. summed o (all_votes id w k rest)) (table_get-fuse_ranking w k id 1 ranking t)
      ∙ sym (summed-append (votes id w k 1 ranking) (table_get id t) (all_votes id w k rest))

  fuse_rankings-IsDistinct :
      (w : F) (k : ℕ) (rankings : List (List (Hit F))) (t : Table F)
      → IsDistinct (keys t)
      → IsDistinct (keys (fuse_rankings fl w k rankings t))
  unfolding fuse_rankings
  fuse_rankings-IsDistinct w k [] t d = d
  fuse_rankings-IsDistinct w k (ranking ∷ rest) t d =
      fuse_rankings-IsDistinct w k rest _ (fuse_ranking-IsDistinct w k 1 ranking t d)

  fused-IsDistinct :
      (w w' : F) (k : ℕ) (bs ds : List (List (Hit F)))
      → IsDistinct (keys (fuse_rankings fl w' k ds (fuse_rankings fl w k bs [])))
  fused-IsDistinct w w' k bs ds =
      fuse_rankings-IsDistinct w' k ds _ (fuse_rankings-IsDistinct w k bs [] tt)

  -- Whatever the weights and the order of the scores.
  pub rrf_fuse-IsDistinct :
      (config : SearcherConfig F) (bs ds : List (List (Hit F))) (bw dw : Option F)
      → IsDistinct (keys (rrf_fuse fl config bs ds bw dw))
  unfolding rrf_fuse
  rrf_fuse-IsDistinct config bs ds bw dw =
      (order_with-IsThinned (λ e. e.0) (fused_before fl) _).distinct
        (fused-IsDistinct _ _ config.rrf_k bs ds)

  fused_before-IsOrder : IsOrder fl.le → IsOrder (fused_before fl)
  unfolding fused_before
  fused_before-IsOrder o = record {
    total = λ p q h. ground (arith, o.total q.1 p.1);
    trans = λ p q r h h'. ground (
      arith,
      o.total p.1 q.1,
      o.total q.1 r.1,
      o.total p.1 r.1,
      o.trans p.1 r.1 q.1,
      o.trans r.1 q.1 p.1,
      o.trans q.1 p.1 r.1,
      o.trans r.1 p.1 q.1,
      o.trans p.1 q.1 r.1,
      o.trans q.1 r.1 p.1,
    );
  }

  -- `fs` has each chunk of the rankings once, with the sum of what it gets from them, and no others,
  -- the larger score first and the smaller id where they are equal.
  pub record IsFused (fs : Table F) (k : ℕ) (bw dw : F)
      (bm25_rankings dense_rankings : List (List (Hit F))) : Type 0 where
    pub distinct : IsDistinct (keys fs)
    pub ordered : IsOrdered (fused_before fl) fs
    pub scored :
        (id : ℕ) (s : F)
        → In (id, s) fs
        → summed none (all_votes id bw k bm25_rankings ++ all_votes id dw k dense_rankings) ≡ some s
    pub complete :
        (id : ℕ) (s : F)
        → summed none (all_votes id bw k bm25_rankings ++ all_votes id dw k dense_rankings) ≡ some s
        → In (id, s) fs

  -- Where the order of the scores is total, the fused list has each chunk of the rankings once and no
  -- others, with the sum of what each occurrence gives, in the order of the rankings; larger scores
  -- come first, and smaller ids where scores are equal.
  pub rrf_fuse-IsFused :
      (config : SearcherConfig F) (bm25_rankings dense_rankings : List (List (Hit F))) (bw dw : F)
      → IsOrder fl.le
      → IsFused
          (rrf_fuse fl config bm25_rankings dense_rankings (some bw) (some dw))
          config.rrf_k
          bw
          dw
          bm25_rankings
          dense_rankings
  unfolding rrf_fuse
  rrf_fuse-IsFused config bs ds bw dw o =
      let t = fuse_rankings fl dw config.rrf_k ds (fuse_rankings fl bw config.rrf_k bs []) in
      let d = fused-IsDistinct bw dw config.rrf_k bs ds in
      let sum : (id : ℕ)
          → table_get id t
            ≡ summed none (all_votes id bw config.rrf_k bs ++ all_votes id dw config.rrf_k ds) =
        λ id.
          table_get-fuse_rankings dw config.rrf_k id ds _
          ∙ ap (λ o. summed o (all_votes id dw config.rrf_k ds))
              (table_get-fuse_rankings bw config.rrf_k id bs [])
          ∙ ap
              (λ o.
                summed (summed o (all_votes id bw config.rrf_k bs))
                  (all_votes id dw config.rrf_k ds))
              (table_get_nil id)
          ∙ sym (
              summed-append (all_votes id bw config.rrf_k bs) none
                (all_votes id dw config.rrf_k ds)) in
      record {
        distinct = rrf_fuse-IsDistinct config bs ds (some bw) (some dw);
        ordered = order_with-IsOrdered (fused_before-IsOrder o) t;
        scored = λ id s m.
            sym (sum id) ∙ In-table_get id s t d (In-order_with (fused_before fl) (id, s) t m);
        complete =
            λ id s e. order_with-In (fused_before fl) (id, s) t (table_get-In id s t (sum id ∙ e));
      }
