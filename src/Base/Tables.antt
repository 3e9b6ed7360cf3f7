-- ===== src/Base/Tables.antt =====
-- Tables as lists: selection by a Boolean test, membership, and ordering.
use mathlib.Core.Bool.{Bool, true, false}
use mathlib.Core.Path.{◌≡◌, refl, ap}
use mathlib.Core.Logic.{◌⊎◌, inl, inr}
use mathlib.Core.List.{List, [], ◌∷◌, ◌++◌, map}
use mathlib.Core.Option.{Option, none, some}
use Prim.Native.Nat.{ℕ, suc}
use native.Mathlib.Omega.{arith}
use longctx.Base.Lists.{length}
use longctx.Base.Tests.{leb, if◌then◌else◌, Bool-cases}

-- `a` is a row of the table.
abbrev pub In : {A : Type 0} → A → List A → Type 0
In a [] = ⊥
In a (x ∷ xs) = (x ≡ a) ⊎ In a xs

module _ {ℓ} {A : Type ℓ} where
  -- `SELECT ... WHERE test`
  abbrev pub select : (A → Bool) → List A → List A
  select test [] = []
  select test (x ∷ xs) = let rest = select test xs in if test x then x ∷ rest else rest

  -- The first row that passes.
  abbrev pub find : (A → Bool) → List A → Option A
  find test [] = none
  find test (x ∷ xs) = let rest = find test xs in if test x then some x else rest

  abbrev pub any : (A → Bool) → List A → Bool
  any test [] = false
  any test (x ∷ xs) = let rest = any test xs in if test x then true else rest

  -- `ORDER BY`, by insertion; rows of which either may stand first keep their order.
  abbrev pub insert_with : (A → A → Bool) → A → List A → List A
  insert_with before x [] = x ∷ []
  insert_with before x (y ∷ ys) =
      let rest = insert_with before x ys in if before x y then x ∷ y ∷ ys else y ∷ rest

  abbrev pub order_with : (A → A → Bool) → List A → List A
  order_with before [] = []
  order_with before (x ∷ xs) = insert_with before x (order_with before xs)

  abbrev pub order_by : (A → ℕ) → List A → List A
  order_by key = order_with (λ a b. leb (key a) (key b))

module _ {ℓ} {A : Type ℓ} where
  length-insert_with :
      (before : A → A → Bool) (x : A) (xs : List A)
      → length (insert_with before x xs) ≡ suc (length xs)
  length-insert_with before x [] = refl
  length-insert_with before x (y ∷ ys) = ground (arith, length-insert_with before x ys)

  pub length-order_with :
      (before : A → A → Bool) (xs : List A) → length (order_with before xs) ≡ length xs
  length-order_with before [] = refl
  length-order_with before (x ∷ xs) =
      ground
        (arith, length-insert_with before x (order_with before xs), length-order_with before xs)

module _ {A : Type 0} where
  pub In-append : (a : A) (xs ys : List A) → In a (xs ++ ys) → In a xs ⊎ In a ys
  In-append a [] ys m = inr m
  In-append a (x ∷ xs) ys (inl e) = inl (inl e)
  In-append a (x ∷ xs) ys (inr m) = elim (In-append a xs ys m) [
    | inl l ↦ inl (inr l)
    | inr r ↦ inr r
  ]

  pub In-select :
      (test : A → Bool) (a : A) (xs : List A) → In a (select test xs) → In a xs × (test a ≡ true)
  In-select test a [] m = absurd m
  In-select test a (x ∷ xs) m = elim (Bool-cases (test x)) [
    | inl pass ↦
        let m' : (x ≡ a) ⊎ In a (select test xs) = rw pass at m in
        elim m' [
          | inl e ↦ (inl e, rw e at pass)
          | inr r ↦ (inr (In-select test a xs r).0, (In-select test a xs r).1)
        ]
    | inr fail ↦
        let m' : In a (select test xs) = rw fail at m in
        (inr (In-select test a xs m').0, (In-select test a xs m').1)
  ]

  pub select-In :
      (test : A → Bool) (a : A) (xs : List A) → In a xs → test a ≡ true → In a (select test xs)
  select-In test a [] m pass = absurd m
  select-In test a (x ∷ xs) (inl e) pass =
      let here : test x ≡ true = rw (← e) at pass in rw here (inl e)
  select-In test a (x ∷ xs) (inr m) pass = elim (Bool-cases (test x)) [
    | inl here ↦ rw here (inr (select-In test a xs m pass))
    | inr skip ↦ rw skip (select-In test a xs m pass)
  ]

  pub In-insert_with :
      (before : A → A → Bool) (a x : A) (xs : List A)
      → In a (insert_with before x xs)
      → (x ≡ a) ⊎ In a xs
  In-insert_with before a x [] m = m
  In-insert_with before a x (y ∷ ys) m = elim (Bool-cases (before x y)) [
    | inl le ↦ rw le at m
    | inr gt ↦
        let m' : (y ≡ a) ⊎ In a (insert_with before x ys) = rw gt at m in
        elim m' [
          | inl e ↦ inr (inl e)
          | inr r ↦ elim (In-insert_with before a x ys r) [ inl e ↦ inl e | inr i ↦ inr (inr i) ]
        ]
  ]

  insert_with-In :
      (before : A → A → Bool) (a x : A) (xs : List A)
      → (x ≡ a) ⊎ In a xs
      → In a (insert_with before x xs)
  insert_with-In before a x [] m = m
  insert_with-In before a x (y ∷ ys) m = elim (Bool-cases (before x y)) [
    | inl le ↦ rw le m
    | inr gt ↦ rw gt (elim m [
      | inl e ↦ inr (insert_with-In before a x ys (inl e))
      | inr i ↦ elim i [ inl e ↦ inl e | inr r ↦ inr (insert_with-In before a x ys (inr r)) ]
    ])
  ]

  pub In-order_with :
      (before : A → A → Bool) (a : A) (xs : List A) → In a (order_with before xs) → In a xs
  In-order_with before a [] m = m
  In-order_with before a (x ∷ xs) m = elim (In-insert_with before a x (order_with before xs) m) [
    | inl e ↦ inl e
    | inr i ↦ inr (In-order_with before a xs i)
  ]

  pub order_with-In :
      (before : A → A → Bool) (a : A) (xs : List A) → In a xs → In a (order_with before xs)
  order_with-In before a [] m = absurd m
  order_with-In before a (x ∷ xs) (inl e) = insert_with-In before a x (order_with before xs) (inl e)
  order_with-In before a (x ∷ xs) (inr m) =
      insert_with-In before a x (order_with before xs) (inr (order_with-In before a xs m))

  pub find-In :
      (test : A → Bool) (a : A) (xs : List A) → find test xs ≡ some a → In a xs × (test a ≡ true)
  find-In test a [] h = absurd (ground arith)
  find-In test a (x ∷ xs) h = elim (Bool-cases (test x)) [
    | inl pass ↦ let e : x ≡ a = ground arith in (inl e, rw e at pass)
    | inr skip ↦ let (m, pass) = find-In test a xs (ground arith) in (inr m, pass)
  ]

  pub any-In :
      (test : A → Bool) (xs : List A) → any test xs ≡ true → (a : A) × In a xs × (test a ≡ true)
  any-In test [] h = absurd (ground arith)
  any-In test (x ∷ xs) h = elim (Bool-cases (test x)) [
    | inl pass ↦ (x, inl refl, pass)
    | inr skip ↦ let (a, m, pass) = any-In test xs (ground arith) in (a, inr m, pass)
  ]

  pub In-any :
      (test : A → Bool) (a : A) (xs : List A) → In a xs → test a ≡ true → any test xs ≡ true
  In-any test a [] m pass = absurd m
  In-any test a (x ∷ xs) (inl e) pass = let here : test x ≡ true = rw (← e) at pass in rw here
  In-any test a (x ∷ xs) (inr m) pass = ground (arith, In-any test a xs m pass)

module _ {A B : Type 0} (f : A → B) where
  pub In-map : (b : B) (xs : List A) → In b (map f xs) → (a : A) × In a xs × (f a ≡ b)
  In-map b [] m = absurd m
  In-map b (x ∷ xs) (inl e) = (x, inl refl, e)
  In-map b (x ∷ xs) (inr m) = let (a, m', e) = In-map b xs m in (a, inr m', e)

  pub map-In : (a : A) (xs : List A) → In a xs → In (f a) (map f xs)
  map-In a [] m = absurd m
  map-In a (x ∷ xs) (inl e) = inl (ap f e)
  map-In a (x ∷ xs) (inr m) = inr (map-In a xs m)

pub In-append_left : {A : Type 0} (a : A) (xs ys : List A) → In a xs → In a (xs ++ ys)
In-append_left a [] ys m = absurd m
In-append_left a (x ∷ xs) ys (inl e) = inl e
In-append_left a (x ∷ xs) ys (inr m) = inr (In-append_left a xs ys m)

pub In-append_right : {A : Type 0} (a : A) (xs ys : List A) → In a ys → In a (xs ++ ys)
In-append_right a [] ys m = m
In-append_right a (x ∷ xs) ys m = inr (In-append_right a xs ys m)
