-- ===== src/Embed/Valid.antt =====
-- The invariant of `MemmapEmbedStore`, its live rows, and what it means that rows were added.
use longctx.Base.{
  ℕ, ◌≤◌, ◌<◌, ◌≡◌, refl, ◌∙◌, Bool, true, false, not, ◌&&◌, ◌||◌, some, inl, inr, List, [], ◌∷◌,
  ◌++◌, arith, ltb, Bool-cases, length, get_elem?, contains, contains-append, All, All-append,
  All-map, All-contains, IsDistinct,
}
use longctx.Embed.{MemmapEmbedStore}

module _ {V : Type 0} where
  -- A row that was handed out and not freed.
  abbrev pub live : MemmapEmbedStore V → ℕ → Bool
  live s row = ltb row s.state.num_rows && not (contains row s.state.freelist)

  pub record IsValid (s : MemmapEmbedStore V) : Type 0 where
    pub mapped : s.mapped ≡ true
    pub file : length s.rows ≡ s.state.capacity
    pub within : s.state.num_rows ≤ s.state.capacity
    pub free_within : All (λ row. row < s.state.num_rows) s.state.freelist
    pub free_distinct : IsDistinct s.state.freelist

  -- The rows hold the vectors, one for one.
  abbrev pub Holds : List V → List ℕ → List V → Type 0
  Holds file [] [] = Unit
  Holds file (row ∷ rows) (v ∷ vs) = (get_elem? file row ≡ some v) × Holds file rows vs
  Holds file _ _ = ⊥

  -- `s'` comes from `s` by handing out `rows` for the vectors `vs`, and by nothing else.
  pub record Appended (s s' : MemmapEmbedStore V) (rows : List ℕ) (vs : List V) : Type 0 where
    pub valid : IsValid s'
    pub dim_kept : s'.dim ≡ s.dim
    pub validate_kept : s'.validate ≡ s.validate
    pub live_iff : (row : ℕ) → live s' row ≡ (live s row || contains row rows)
    pub fresh : All (λ row. live s row ≡ false) rows
    pub distinct : IsDistinct rows
    pub kept : (row : ℕ) → live s row ≡ true → get_elem? s'.rows row ≡ get_elem? s.rows row
    pub holds : Holds s'.rows rows vs

  Holds-append :
      (file : List V) (rows rows' : List ℕ) (vs vs' : List V)
      → Holds file rows vs
      → Holds file rows' vs'
      → Holds file (rows ++ rows') (vs ++ vs')
  Holds-append file [] rows' [] vs' h h' = h'
  Holds-append file [] rows' (v ∷ vs) vs' h h' = absurd h
  Holds-append file (row ∷ rows) rows' [] vs' h h' = absurd h
  Holds-append file (row ∷ rows) rows' (v ∷ vs) vs' h h' =
      (h.0, Holds-append file rows rows' vs vs' h.1 h')

  Holds-transfer :
      (file file' : List V) (rows : List ℕ) (vs : List V)
      → ((row : ℕ) → contains row rows ≡ true → get_elem? file' row ≡ get_elem? file row)
      → Holds file rows vs
      → Holds file' rows vs
  Holds-transfer file file' [] [] same h = tt
  Holds-transfer file file' [] (v ∷ vs) same h = absurd h
  Holds-transfer file file' (row ∷ rows) [] same h = absurd h
  Holds-transfer file file' (row ∷ rows) (v ∷ vs) same h = (
    same row (ground arith) ∙ h.0,
    Holds-transfer file file' rows vs (λ r m. same r (ground arith)) h.1,
  )

  length-Holds :
      (file : List V) (rows : List ℕ) (vs : List V) → Holds file rows vs → length rows ≡ length vs
  length-Holds file [] [] h = refl
  length-Holds file [] (v ∷ vs) h = absurd h
  length-Holds file (row ∷ rows) [] h = absurd h
  length-Holds file (row ∷ rows) (v ∷ vs) h = omega (arith, length-Holds file rows vs h.1)

  pub Appended-nil : (s : MemmapEmbedStore V) → IsValid s → Appended s s [] []
  Appended-nil s h = record {
    valid = h;
    dim_kept = refl;
    validate_kept = refl;
    live_iff = λ row. ground arith;
    fresh = tt;
    distinct = tt;
    kept = λ row l. refl;
    holds = tt;
  }

IsDistinct-append :
    (xs ys : List ℕ)
    → IsDistinct xs
    → IsDistinct ys
    → ((a : ℕ) → contains a xs ≡ true → contains a ys ≡ false)
    → IsDistinct (xs ++ ys)
IsDistinct-append [] ys hx hy apart = hy
IsDistinct-append (x ∷ xs) ys hx hy apart = (
  ground (arith, contains-append x xs ys, apart x (ground arith)),
  IsDistinct-append xs ys hx.1 hy (λ a m. apart a (ground arith)),
)

module _ {V : Type 0} {s t u : MemmapEmbedStore V} {rows rows' : List ℕ} {vs vs' : List V}
    (a : Appended s t rows vs) (b : Appended t u rows' vs') where
  later_apart : (row : ℕ) → contains row rows ≡ true → contains row rows' ≡ false
  later_apart row m = elim (Bool-cases (contains row rows')) [
    | inl m' ↦
        absurd (
          ground (arith, a.live_iff row, All-contains (λ r. live t r ≡ false) row rows' b.fresh m'))
    | inr m' ↦ m'
  ]

  -- Two additions, one after the other, are one.
  pub Appended-trans : Appended s u (rows ++ rows') (vs ++ vs')
  Appended-trans = record {
    valid = b.valid;
    dim_kept = b.dim_kept ∙ a.dim_kept;
    validate_kept = b.validate_kept ∙ a.validate_kept;
    live_iff =
        λ row. ground (arith, a.live_iff row, b.live_iff row, contains-append row rows rows');
    fresh =
        All-append (λ r. live s r ≡ false) rows rows' a.fresh
          (All-map (λ r. live t r ≡ false) (λ r. live s r ≡ false) rows'
            (λ r e. ground (arith, a.live_iff r)) b.fresh);
    distinct = IsDistinct-append rows rows' a.distinct b.distinct later_apart;
    kept = λ row l. b.kept row (ground (arith, a.live_iff row)) ∙ a.kept row l;
    holds =
        Holds-append u.rows rows rows' vs vs'
          (Holds-transfer t.rows u.rows rows vs
            (λ row m. b.kept row (ground (arith, a.live_iff row))) a.holds)
          b.holds;
  }
