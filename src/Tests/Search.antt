-- ===== src/Tests/Search.antt =====
-- A ranking by sorting, and the dense search on a concrete store.
use longctx.Base.{
  ℕ, zero, suc, ◌+◌, ◌*◌, ◌≤◌, ◌<◌, ◌≡◌, refl, ap, ◌∙◌, Bool, true, false, Option, none, some, inl,
  inr, Bool-cases, List, [], ◌∷◌, arith, leb, ltb, ◌==◌, length, take, contains, All-of-contains,
  IsDistinct, range_from, contains-range_from, range_from-IsDistinct, length-take,
  length-range_from, order_with, insert_with, length-order_with,
}
use longctx.Base.Result.{ok}
use longctx.ChunkStore.Scopes.{contains-insert_with, contains-order_with}
use longctx.Embed.Search.{
  Ranking, in_scope, mask_from, score_at, masked_scores, finite_hits, search_dense,
}
use longctx.Embed.Top.{AtMost, IsTop}
use longctx.Embed.Best.{IsBest, search_dense-IsBest}
use longctx.Tests.{numpy, used, used-IsValid}

abbrev at_least : Option ℕ → Option ℕ → Bool
at_least a none = true
at_least none (some b) = false
at_least (some a) (some b) = leb b a

at_least_total : (a b : Option ℕ) → at_least a b ≡ false → at_least b a ≡ true
at_least_total a none h = absurd (ground (arith, h))
at_least_total none (some b) h = refl
at_least_total (some a) (some b) h = ground arith

at_least_trans :
    (a b c : Option ℕ) → at_least a b ≡ true → at_least b c ≡ true → at_least a c ≡ true
at_least_trans a b none h k = refl
at_least_trans a none (some c) h k = absurd (ground (arith, k))
at_least_trans none (some b) (some c) h k = absurd (ground (arith, h))
at_least_trans (some a) (some b) (some c) h k = ground arith

AtMost-at_least : (a b : Option ℕ) → at_least b a ≡ true → AtMost leb a b
AtMost-at_least none b h = tt
AtMost-at_least (some a) none h = absurd (ground (arith, h))
AtMost-at_least (some a) (some b) h = h

module _ (os : List (Option ℕ)) where
  abbrev before : ℕ → ℕ → Bool
  before i j = at_least (score_at os i) (score_at os j)

  abbrev Sorted : List ℕ → Type 0
  Sorted [] = Unit
  Sorted (i ∷ is) = ((j : ℕ) → contains j is ≡ true → before i j ≡ true) × Sorted is

  insert-Sorted : (x : ℕ) (xs : List ℕ) → Sorted xs → Sorted (insert_with before x xs)
  insert-Sorted x [] s = ((λ j m. absurd (ground arith)), tt)
  insert-Sorted x (y ∷ ys) (first, s) = elim (Bool-cases (before x y)) [
    | inl le ↦ rw le (
      (λ j m. elim (Bool-cases (j == y)) [
        | inl e ↦ let same : j ≡ y = ground arith in ap (before x) same ∙ le
        | inr ne ↦
            at_least_trans (score_at os x) (score_at os y) (score_at os j) le
              (first j (ground arith))
      ]),
      (first, s),
    )
    | inr gt ↦ rw gt (
      (λ j m. elim (Bool-cases (j == x)) [
        | inl e ↦
            let same : j ≡ x = ground arith in
            ap (before y) same ∙ at_least_total (score_at os x) (score_at os y) gt
        | inr ne ↦ first j (ground (arith, contains-insert_with before j x ys))
      ]),
      insert-Sorted x ys s,
    )
  ]

  order-Sorted : (xs : List ℕ) → Sorted (order_with before xs)
  order-Sorted [] = tt
  order-Sorted (x ∷ xs) = insert-Sorted x (order_with before xs) (order-Sorted xs)

  insert-IsDistinct :
      (x : ℕ) (xs : List ℕ)
      → contains x xs ≡ false
      → IsDistinct xs
      → IsDistinct (insert_with before x xs)
  insert-IsDistinct x [] out d = (refl, tt)
  insert-IsDistinct x (y ∷ ys) out (first, d) = elim (Bool-cases (before x y)) [
    | inl le ↦ rw le (out, (first, d))
    | inr gt ↦ rw gt (
      ground (arith, contains-insert_with before y x ys),
      insert-IsDistinct x ys (ground arith) d,
    )
  ]

  order-IsDistinct : (xs : List ℕ) → IsDistinct xs → IsDistinct (order_with before xs)
  order-IsDistinct [] d = tt
  order-IsDistinct (x ∷ xs) (out, d) =
      insert-IsDistinct x (order_with before xs) (contains-order_with before x xs ∙ out)
        (order-IsDistinct xs d)

  take-before :
      (n : ℕ) (xs : List ℕ) (i j : ℕ)
      → Sorted xs
      → contains i (take n xs) ≡ true
      → contains j xs ≡ true
      → contains j (take n xs) ≡ false
      → before i j ≡ true
  take-before zero xs i j s m m' out = absurd (ground arith)
  take-before (suc n) [] i j s m m' out = absurd (ground arith)
  take-before (suc n) (x ∷ xs) i j (first, s) m m' out = elim (Bool-cases (i == x)) [
    | inl e ↦ let same : i ≡ x = ground arith in ap (λ k. before k j) same ∙ first j (ground arith)
    | inr ne ↦ take-before n xs i j s (ground arith) (ground arith) (ground arith)
  ]

  contains-take :
      (n : ℕ) (xs : List ℕ) (i : ℕ) → contains i (take n xs) ≡ true → contains i xs ≡ true
  contains-take zero xs i m = absurd (ground arith)
  contains-take (suc n) [] i m = m
  contains-take (suc n) (x ∷ xs) i m = ground (arith, contains-take n xs i)

  take-IsDistinct : (n : ℕ) (xs : List ℕ) → IsDistinct xs → IsDistinct (take n xs)
  take-IsDistinct zero xs d = tt
  take-IsDistinct (suc n) [] d = tt
  take-IsDistinct (suc n) (x ∷ xs) (out, d) =
      (ground (arith, contains-take n xs x), take-IsDistinct n xs d)

  abbrev rank : List ℕ
  rank = order_with before (range_from 0 (length os))

  contains-rank : (i : ℕ) → contains i rank ≡ ltb i (length os)
  contains-rank i =
      contains-order_with before i (range_from 0 (length os))
      ∙ ground (arith, contains-range_from i 0 (length os))

  pub rank-IsTop : (n : ℕ) → n ≤ length os → IsTop leb os n (take n rank)
  rank-IsTop n le = record {
    distinct =
        take-IsDistinct n rank
          (order-IsDistinct (range_from 0 (length os)) (range_from-IsDistinct 0 (length os)));
    inside =
        All-of-contains (λ i. i < length os) (take n rank)
          (λ i m. ground (arith, contains-rank i, contains-take n rank i m));
    count = omega (
      arith,
      length-take n rank,
      length-order_with before (range_from 0 (length os)),
      length-range_from 0 (length os),
    );
    best = λ i j m lt out. AtMost-at_least (score_at os j) (score_at os i) (
        take-before n rank i j (order-Sorted (range_from 0 (length os))) m
          (ground (arith, contains-rank j)) out);
  }

abbrev dot : List ℕ → List ℕ → ℕ
dot [] ys = 0
dot (x ∷ xs) [] = 0
dot (x ∷ xs) (y ∷ ys) = x * y + dot xs ys

abbrev pub ranking : Ranking (List ℕ) ℕ
ranking = record { score = λ q v. some (dot q v); top = λ os n. take n (rank os) }

search_dense-IsBest_example :
    (hits : List (ℕ × ℕ)) × (search_dense numpy ranking used (1 ∷ 0 ∷ []) 2 none ≡ ok hits)
    × IsBest numpy ranking used (1 ∷ 0 ∷ []) none leb 2 hits
search_dense-IsBest_example =
    search_dense-IsBest numpy ranking used (1 ∷ 0 ∷ []) none leb 2 used-IsValid refl (omega arith)
      (λ os n pos le. rank-IsTop os n le)

-- The freed row 0 is no hit, though two hits are asked for and three rows were handed out.
search_run :
    (search_dense numpy ranking used (1 ∷ 0 ∷ []) 2 none ≡ ok ((2, 1) ∷ (1, 0) ∷ []))
    × (search_dense numpy ranking used (1 ∷ 0 ∷ []) 2 (some (0 ∷ 1 ∷ [])) ≡ ok ((1, 0) ∷ []))
unfolding search_dense masked_scores mask_from in_scope finite_hits
search_run = (refl, refl)
