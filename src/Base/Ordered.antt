-- ===== src/Base/Ordered.antt =====
-- Lists that `order_with` puts in order, for a total and transitive test.
use mathlib.Core.Path.{◌≡◌}
use mathlib.Core.Bool.{Bool, true, false}
use mathlib.Core.Logic.{inl, inr}
use mathlib.Core.List.{List, [], ◌∷◌}
use Prim.Native.Nat.{ℕ, zero, suc}
use longctx.Base.Tests.{Bool-cases}
use longctx.Base.Lists.{take, drop}
use longctx.Base.Tables.{In, In-select, In-insert_with, select, insert_with, order_with}

-- An order, as a Boolean test.
pub record IsOrder {A : Type 0} (before : A → A → Bool) : Type 0 where
  pub total : (a b : A) → before a b ≡ false → before b a ≡ true
  pub trans : (a b c : A) → before a b ≡ true → before b c ≡ true → before a c ≡ true

-- Every element may stand before all that follow.
abbrev pub IsOrdered : {A : Type 0} → (A → A → Bool) → List A → Type 0
IsOrdered before [] = Unit
IsOrdered {A} before (x ∷ xs) = ((y : A) → In y xs → before x y ≡ true) × IsOrdered before xs

pub select-IsOrdered :
    {A : Type 0} (before : A → A → Bool) (test : A → Bool) (xs : List A)
    → IsOrdered before xs
    → IsOrdered before (select test xs)
select-IsOrdered before test [] h = tt
select-IsOrdered {A} before test (x ∷ xs) (here, rest) = elim (Bool-cases (test x)) [
  | inl pass ↦
      let after : (y : A) → In y (select test xs) → before x y ≡ true =
        λ y m. here y (In-select test y xs m).0 in
      rw pass (after, select-IsOrdered before test xs rest)
  | inr skip ↦ rw skip (select-IsOrdered before test xs rest)
]

In-drop : {A : Type 0} (n : ℕ) (a : A) (xs : List A) → In a (drop n xs) → In a xs
In-drop zero a xs m = m
In-drop (suc n) a [] m = m
In-drop (suc n) a (x ∷ xs) m = inr (In-drop n a xs m)

-- What stands in front may stand before what stands behind.
pub take-before-drop :
    {A : Type 0} (before : A → A → Bool) (n : ℕ) (xs : List A) (a b : A)
    → IsOrdered before xs
    → In a (take n xs)
    → In b (drop n xs)
    → before a b ≡ true
take-before-drop before zero xs a b h m m' = absurd m
take-before-drop before (suc n) [] a b h m m' = absurd m
take-before-drop before (suc n) (x ∷ xs) a b (here, rest) (inl e) m' =
    rw (← e) (here b (In-drop n b xs m'))
take-before-drop before (suc n) (x ∷ xs) a b (here, rest) (inr m) m' =
    take-before-drop before n xs a b rest m m'

module _ {A : Type 0} {before : A → A → Bool} (order : IsOrder before) where
  insert_with-IsOrdered :
      (x : A) (xs : List A) → IsOrdered before xs → IsOrdered before (insert_with before x xs)
  insert_with-IsOrdered x [] h = ((λ y m. absurd m), tt)
  insert_with-IsOrdered x (y ∷ ys) (here, rest) = elim (Bool-cases (before x y)) [
    | inl le ↦
        let after : (z : A) → In z (y ∷ ys) → before x z ≡ true =
          λ z m. elim m [ inl e ↦ rw (← e) le | inr m' ↦ order.trans x y z le (here z m') ] in
        rw le (after, (here, rest))
    | inr gt ↦
        let after : (z : A) → In z (insert_with before x ys) → before y z ≡ true = λ z m.
          elim (In-insert_with before z x ys m) [
            | inl e ↦ rw (← e) (order.total x y gt)
            | inr m' ↦ here z m'
          ] in
        rw gt (after, insert_with-IsOrdered x ys rest)
  ]

  pub order_with-IsOrdered : (xs : List A) → IsOrdered before (order_with before xs)
  order_with-IsOrdered [] = tt
  order_with-IsOrdered (x ∷ xs) =
      insert_with-IsOrdered x (order_with before xs) (order_with-IsOrdered xs)
