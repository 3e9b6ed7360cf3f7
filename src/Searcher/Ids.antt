-- ===== src/Searcher/Ids.antt =====
-- searcher.py: the ids of the chunks, from the fused list to those that may be taken.
use longctx.Base.{
  ℕ, ◌≡◌, true, false, ◌||◌, Bool-cases, Option, none, some, Option-cases, inl, inr, List, [], ◌∷◌,
  map, arith, ◌==◌, contains, take,
}
use longctx.Base.Distinct.{
  IsThinned, IsThinned-nil, IsThinned-skip, IsThinned-keep, IsThinned-trans, take-IsThinned,
  order_with-IsThinned,
}
use longctx.ChunkStore.{Chunk}
use longctx.ChunkStore.Queries.{last}
use longctx.Searcher.{Floats, Table}
use longctx.Searcher.Results.{Taking, is_seen, see, ranked_from}
use longctx.Searcher.Search.{re_ranked}
use longctx.Searcher.Entries.{keys}
use longctx.Searcher.Take.{key_of, eligible}
use longctx.Searcher.Rows.{last-some}

last-id : (id : ℕ) (cs : List Chunk) (c : Chunk) → last (λ d. d.id == id) cs ≡ some c → c.id ≡ id
last-id id cs c h = let (m, pass) = last-some (λ d. d.id == id) cs c h in ground arith

module _ {F : Type 0} where
  abbrev pub ids : List (Chunk × F) → List ℕ
  ids ranked = map (λ e. e.0.id) ranked

  pub ranked_from-IsThinned :
      (fetched : List Chunk) (t : Table F) → IsThinned (ids (ranked_from fetched t)) (keys t)
  unfolding ranked_from
  ranked_from-IsThinned fetched [] = IsThinned-nil []
  ranked_from-IsThinned fetched ((id, s) ∷ t) =
      elim (Option-cases (last (λ c. c.id == id) fetched)) [
        | inl missing ↦
            rw (missing, ranked_from)
              (IsThinned-skip id _ (keys t) (ranked_from-IsThinned fetched t))
        | inr (c, there) ↦
            rw (there, ranked_from, last-id id fetched c there)
              (IsThinned-keep id _ (keys t) (ranked_from-IsThinned fetched t))
      ]

  pub re_ranked-IsThinned :
      (fl : Floats F) (weight : Option (Chunk → F)) (ranked : List (Chunk × F))
      → IsThinned (ids (re_ranked fl weight ranked)) (ids ranked)
  unfolding re_ranked
  re_ranked-IsThinned fl none ranked = record { inside = λ i m. m; distinct = λ d. d }
  re_ranked-IsThinned fl (some weight) ranked = order_with-IsThinned (λ e. e.0.id) _ ranked

  module _ (t : Taking F) where
    eligible-IsThinned :
        (seen : List (List ℕ)) (ranked : List (Chunk × F))
        → IsThinned (ids (eligible t seen ranked)) (ids ranked)
    eligible-IsThinned seen [] = IsThinned-nil []
    eligible-IsThinned seen ((c, s) ∷ ranked) =
        elim (Bool-cases (contains c.id t.suppress_ids || is_seen (key_of t c) seen)) [
          | inl out ↦ rw out (IsThinned-skip c.id _ (ids ranked) (eligible-IsThinned seen ranked))
          | inr stays ↦ rw stays (
              IsThinned-keep c.id _ (ids ranked)
                (eligible-IsThinned (see (key_of t c) seen) ranked))
        ]

    pub eligible_shows :
        (seen : List (List ℕ)) (ranked : List (Chunk × F)) (i : ℕ)
        → contains i (ids (eligible t seen ranked)) ≡ true
        → contains i t.suppress_ids ≡ false
    eligible_shows seen [] i m = absurd (ground arith)
    eligible_shows seen ((c, s) ∷ ranked) i m =
        elim (Bool-cases (contains c.id t.suppress_ids || is_seen (key_of t c) seen)) [
          | inl out ↦ eligible_shows seen ranked i (rw out at m)
          | inr stays ↦ elim (Bool-cases (c.id == i)) [
            | inl here ↦ let same : c.id ≡ i = ground arith in rw (← same) (ground (arith, stays))
            | inr other ↦
                let m' : (c.id == i || contains i (ids (eligible t (see (key_of t c) seen) ranked)))
                    ≡ true =
                  rw stays at m in
                eligible_shows (see (key_of t c) seen) ranked i (ground arith)
          ]
        ]

    pub chosen-IsThinned :
        (n : ℕ) (ranked : List (Chunk × F))
        → IsThinned (ids (take n (eligible t [] ranked))) (ids ranked)
    chosen-IsThinned n ranked =
        IsThinned-trans _ (ids (eligible t [] ranked)) _
          (take-IsThinned (λ e. e.0.id) n (eligible t [] ranked)) (eligible-IsThinned [] ranked)
