-- ===== src/Embed/Top.antt =====
-- `search_dense` of memmap_store.py: the best entries of an array of scores.
use longctx.Base.{
  ℕ, zero, suc, ◌+◌, ◌≤◌, ◌<◌, ◌≡◌, refl, ap, ◌∙◌, Bool, true, false, Option, none, some, List, [],
  ◌∷◌, arith, map, if◌then◌else◌, length, get_elem?, take, contains, All, IsDistinct,
}
use longctx.Embed.Search.{mask_from, score_at}

module _ {S : Type 0} (leq : S → S → Bool) where
  -- What is not finite is below everything.
  abbrev pub AtMost : Option S → Option S → Type 0
  AtMost none b = Unit
  AtMost (some a) none = ⊥
  AtMost (some a) (some b) = leq a b ≡ true

  -- `k` different indices of the array, whose scores no other index exceeds.
  pub record IsTop (os : List (Option S)) (k : ℕ) (idx : List ℕ) : Type 0 where
    pub distinct : IsDistinct idx
    pub inside : All (λ i. i < length os) idx
    pub count : length idx ≡ k
    pub best :
        (i j : ℕ)
        → contains i idx ≡ true
        → j < length os
        → contains j idx ≡ false
        → AtMost (score_at os j) (score_at os i)

module _ {S : Type 0} where
  pub get_elem?-mask_from :
      (allowed : ℕ → Bool) (at : ℕ) (os : List (Option S)) (i : ℕ)
      → get_elem? (mask_from allowed at os) i ≡ (elim (get_elem? os i) as (λ o. Option (Option S)) [
        | none ↦ none
        | some o ↦ some (if allowed (at + i) then o else none)
      ])
  unfolding mask_from
  get_elem?-mask_from allowed at [] i = refl
  get_elem?-mask_from allowed at (o ∷ os) zero =
      ap (λ k. some (if allowed k then o else none)) (omega arith)
  get_elem?-mask_from allowed at (o ∷ os) (suc i) =
      get_elem?-mask_from allowed (at + 1) os i
      ∙ ap
          (λ k. elim (get_elem? os i) as (λ o. Option (Option S)) [
            | none ↦ none
            | some o ↦ some (if allowed k then o else none)
          ])
          (omega arith)

  pub length-mask_from :
      (allowed : ℕ → Bool) (at : ℕ) (os : List (Option S))
      → length (mask_from allowed at os) ≡ length os
  unfolding mask_from
  length-mask_from allowed at [] = refl
  length-mask_from allowed at (o ∷ os) = ap suc (length-mask_from allowed (at + 1) os)

pub get_elem?-take :
    {A : Type 0} (n : ℕ) (xs : List A) (i : ℕ) → i < n → get_elem? (take n xs) i ≡ get_elem? xs i
get_elem?-take zero xs i lt = absurd (omega arith)
get_elem?-take (suc n) [] i lt = refl
get_elem?-take (suc n) (x ∷ xs) zero lt = refl
get_elem?-take (suc n) (x ∷ xs) (suc i) lt = get_elem?-take n xs i (omega arith)

pub get_elem?-take_end :
    {A : Type 0} (n : ℕ) (xs : List A) (i : ℕ) → n ≤ i → get_elem? (take n xs) i ≡ none
get_elem?-take_end zero xs i le = refl
get_elem?-take_end (suc n) [] i le = refl
get_elem?-take_end (suc n) (x ∷ xs) zero le = absurd (omega arith)
get_elem?-take_end (suc n) (x ∷ xs) (suc i) le = get_elem?-take_end n xs i (omega arith)

pub get_elem?-map :
    {A B : Type 0} (f : A → B) (xs : List A) (i : ℕ)
    → get_elem? (map f xs) i
      ≡ (elim (get_elem? xs i) as (λ o. Option B) [ none ↦ none | some a ↦ some (f a) ])
get_elem?-map f [] i = refl
get_elem?-map f (x ∷ xs) zero = refl
get_elem?-map f (x ∷ xs) (suc i) = get_elem?-map f xs i

pub length-map : {A B : Type 0} (f : A → B) (xs : List A) → length (map f xs) ≡ length xs
length-map f [] = refl
length-map f (x ∷ xs) = ap suc (length-map f xs)
