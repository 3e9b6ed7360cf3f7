-- ===== src/Base/Distinct.antt =====
-- Lists of distinct numbers: what is left of one when elements are left out or put in order.
use mathlib.Core.Path.{◌≡◌, refl, sym, ◌∙◌}
use mathlib.Core.Bool.{Bool, true, false, ◌||◌}
use mathlib.Core.Logic.{inl, inr}
use mathlib.Core.List.{List, [], ◌∷◌, ◌++◌, map}
use Prim.Native.Nat.{ℕ, zero, suc}
use native.Mathlib.Omega.{arith}
use longctx.Base.Tests.{◌==◌, Bool-cases}
use longctx.Base.Lists.{take, contains, contains-append, IsDistinct}
use longctx.Base.Tables.{insert_with, order_with}

-- `xs` is made of elements of `ys`, and has none twice unless `ys` has.
pub record IsThinned (xs ys : List ℕ) : Type 0 where
  pub inside : (i : ℕ) → contains i xs ≡ true → contains i ys ≡ true
  pub distinct : IsDistinct ys → IsDistinct xs

pub IsThinned-nil : (ys : List ℕ) → IsThinned [] ys
IsThinned-nil ys = record { inside = λ i m. absurd (ground arith); distinct = λ d. tt }

pub IsThinned-skip : (y : ℕ) (xs ys : List ℕ) → IsThinned xs ys → IsThinned xs (y ∷ ys)
IsThinned-skip y xs ys th = record {
  inside = λ i m. ground (arith, th.inside i m);
  distinct = λ d. th.distinct d.1;
}

pub IsThinned-keep : (y : ℕ) (xs ys : List ℕ) → IsThinned xs ys → IsThinned (y ∷ xs) (y ∷ ys)
IsThinned-keep y xs ys th = record {
  inside = λ i m. ground (arith, th.inside i);
  distinct = λ d. (ground (arith, th.inside y, d.0), th.distinct d.1);
}

pub IsThinned-trans : (xs ys zs : List ℕ) → IsThinned xs ys → IsThinned ys zs → IsThinned xs zs
IsThinned-trans xs ys zs f g = record {
  inside = λ i m. g.inside i (f.inside i m);
  distinct = λ d. f.distinct (g.distinct d);
}

pub append-IsDistinct :
    (xs ys : List ℕ)
    → IsDistinct xs
    → IsDistinct ys
    → ((i : ℕ) → contains i ys ≡ true → contains i xs ≡ false)
    → IsDistinct (xs ++ ys)
append-IsDistinct [] ys d d' apart = d'
append-IsDistinct (x ∷ xs) ys (out, d) d' apart = (
  ground (arith, contains-append x xs ys, apart x),
  append-IsDistinct xs ys d d' (λ i m. ground (arith, apart i m)),
)

module _ {A : Type 0} (key : A → ℕ) where
  pub take-IsThinned : (n : ℕ) (xs : List A) → IsThinned (map key (take n xs)) (map key xs)
  take-IsThinned zero xs = IsThinned-nil (map key xs)
  take-IsThinned (suc n) [] = IsThinned-nil []
  take-IsThinned (suc n) (x ∷ xs) =
      IsThinned-keep (key x) (map key (take n xs)) (map key xs) (take-IsThinned n xs)

  module _ (before : A → A → Bool) where
    contains-insert :
        (i : ℕ) (x : A) (xs : List A)
        → contains i (map key (insert_with before x xs)) ≡ (key x == i || contains i (map key xs))
    contains-insert i x [] = refl
    contains-insert i x (y ∷ xs) = ground (arith, contains-insert i x xs)

    contains-order :
        (i : ℕ) (xs : List A)
        → contains i (map key (order_with before xs)) ≡ contains i (map key xs)
    contains-order i [] = refl
    contains-order i (x ∷ xs) =
        ground (arith, contains-insert i x (order_with before xs), contains-order i xs)

    insert-IsDistinct :
        (x : A) (xs : List A)
        → contains (key x) (map key xs) ≡ false
        → IsDistinct (map key xs)
        → IsDistinct (map key (insert_with before x xs))
    insert-IsDistinct x [] out d = (refl, tt)
    insert-IsDistinct x (y ∷ xs) out (first, d) = elim (Bool-cases (before x y)) [
      | inl le ↦ rw le (out, (first, d))
      | inr gt ↦
          rw gt
            (ground (arith, contains-insert (key y) x xs), insert-IsDistinct x xs (ground arith) d)
    ]

    order-IsDistinct :
        (xs : List A) → IsDistinct (map key xs) → IsDistinct (map key (order_with before xs))
    order-IsDistinct [] d = tt
    order-IsDistinct (x ∷ xs) (out, d) =
        insert-IsDistinct x (order_with before xs) (contains-order (key x) xs ∙ out)
          (order-IsDistinct xs d)

    pub order_with-IsThinned :
        (xs : List A) → IsThinned (map key (order_with before xs)) (map key xs)
    order_with-IsThinned xs = record {
      inside = λ i m. sym (contains-order i xs) ∙ m;
      distinct = order-IsDistinct xs;
    }
