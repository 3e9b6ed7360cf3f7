-- ===== src/Searcher/Entries.antt =====
-- searcher.py: the dictionaries of the fusion.
use longctx.Base.{
  ℕ, ◌≡◌, refl, ap, true, ◌||◌, Bool-cases, none, some, inl, inr, List, [], ◌∷◌, map, arith, ◌==◌,
  if◌then◌else◌, contains, IsDistinct, In,
}
use longctx.Searcher.{Table, table_get, table_put}

abbrev pub keys : {F : Type 0} → Table F → List ℕ
keys t = map (λ e. e.0) t

module _ {F : Type 0} where
  pub table_get_nil : (id : ℕ) → table_get {F = F} id [] ≡ none
  unfolding table_get
  table_get_nil id = refl

  pub table_get-table_put :
      (id j : ℕ) (s : F) (t : Table F)
      → table_get id (table_put j s t) ≡ (if j == id then some s else table_get id t)
  unfolding table_get table_put
  table_get-table_put id j s [] = refl
  table_get-table_put id j s ((i, u) ∷ t) = ground (arith, table_get-table_put id j s t)

  pub contains-keys_put :
      (id j : ℕ) (s : F) (t : Table F)
      → contains id (keys (table_put j s t)) ≡ (j == id || contains id (keys t))
  unfolding table_put
  contains-keys_put id j s [] = ground arith
  contains-keys_put id j s ((i, u) ∷ t) = ground (arith, contains-keys_put id j s t)

  pub table_put-IsDistinct :
      (j : ℕ) (s : F) (t : Table F) → IsDistinct (keys t) → IsDistinct (keys (table_put j s t))
  unfolding table_put
  table_put-IsDistinct j s [] d = (refl, tt)
  table_put-IsDistinct j s ((i, u) ∷ t) (out, d) = elim (Bool-cases (i == j)) [
    | inl hit ↦ rw hit (out, d)
    | inr miss ↦ rw miss (ground (arith, contains-keys_put i j s t), table_put-IsDistinct j s t d)
  ]

  pub table_get-In : (id : ℕ) (s : F) (t : Table F) → table_get id t ≡ some s → In (id, s) t
  unfolding table_get
  table_get-In id s [] h = absurd (ground (arith, h))
  table_get-In id s ((j, u) ∷ t) h = elim (Bool-cases (j == id)) [
    | inl hit ↦ let e : j ≡ id = ground arith in let e' : u ≡ s = ground (arith, h) in inl (cc)
    | inr miss ↦ inr (table_get-In id s t (ground arith))
  ]

  contains-In : (id : ℕ) (s : F) (t : Table F) → In (id, s) t → contains id (keys t) ≡ true
  contains-In id s ((j, u) ∷ t) (inl e) = let same : j ≡ id = ap (λ p. p.0) e in ground arith
  contains-In id s ((j, u) ∷ t) (inr m) = ground (arith, contains-In id s t m)
  contains-In id s [] m = absurd m

  pub In-table_get :
      (id : ℕ) (s : F) (t : Table F) → IsDistinct (keys t) → In (id, s) t → table_get id t ≡ some s
  unfolding table_get
  In-table_get id s [] d m = absurd m
  In-table_get id s ((j, u) ∷ t) (out, d) (inl e) =
      let same : j ≡ id = ap (λ p. p.0) e in let value : u ≡ s = ap (λ p. p.1) e in ground arith
  In-table_get id s ((j, u) ∷ t) (out, d) (inr m) =
      ground (arith, contains-In id s t m, In-table_get id s t d m)
