-- ===== src/Embed/Free.antt =====
-- `free_row` of memmap_store.py.
use longctx.Base.{
  ℕ, ◌<◌, ◌≡◌, refl, ◌∙◌, true, false, not, ◌&&◌, inl, inr, Bool-cases, ap, ◌∷◌, arith, ◌==◌,
  get_elem?, set, contains, length-set, get_elem?-set_ne, lt→ltb,
}
use longctx.Base.Result.{ok}
use longctx.Embed.{MemmapEmbedStore, Numpy, free_row, write_row, save_index}
use longctx.Embed.Valid.{live, IsValid}
use longctx.Embed.Append.{write_row_lem}

module _ {V : Type 0} where
  -- `t` comes from `s` by freeing `row`, and by nothing else.
  pub record Freed (s t : MemmapEmbedStore V) (row : ℕ) : Type 0 where
    pub valid : IsValid t
    pub num_rows_kept : t.state.num_rows ≡ s.state.num_rows
    pub dim_kept : t.dim ≡ s.dim
    pub validate_kept : t.validate ≡ s.validate
    pub live_iff : (r : ℕ) → live t r ≡ (live s r && not (r == row))
    pub kept : (r : ℕ) → live t r ≡ true → get_elem? t.rows r ≡ get_elem? s.rows r

  Freed-again :
      (s : MemmapEmbedStore V) (row : ℕ)
      → IsValid s
      → contains row s.state.freelist ≡ true
      → Freed s s row
  Freed-again s row h m = record {
    valid = h;
    num_rows_kept = refl;
    dim_kept = refl;
    validate_kept = refl;
    live_iff = λ r. elim (Bool-cases (r == row)) [
      | inl e ↦
          let p : r ≡ row = ground arith in
          ground (arith, ap (λ (k : ℕ). contains k s.state.freelist) p)
      | inr e ↦ ground arith
    ];
    kept = λ r l. refl;
  }

module _ {V : Type 0} (np : Numpy V) where
  -- The store after the first freeing of a row.
  abbrev release : MemmapEmbedStore V → ℕ → MemmapEmbedStore V
  release s row = record s {
    rows = set s.rows row np.zero_row;
    state = record (s.state) { freelist = row ∷ s.state.freelist };
  }

  release-Freed :
      (s : MemmapEmbedStore V) (row : ℕ)
      → IsValid s
      → row < s.state.num_rows
      → contains row s.state.freelist ≡ false
      → Freed s (save_index (release s row)) row
  unfolding save_index
  release-Freed s row h lt first = record {
    valid = record {
      mapped = h.mapped;
      file = length-set s.rows row np.zero_row ∙ h.file;
      within = h.within;
      free_within = (lt, h.free_within);
      free_distinct = (first, h.free_distinct);
    };
    num_rows_kept = refl;
    dim_kept = refl;
    validate_kept = refl;
    live_iff = λ r. ground arith;
    kept = λ r l. get_elem?-set_ne s.rows row r np.zero_row (ground arith);
  }

  -- Freeing a row that was handed out succeeds. The row is not live afterwards; every other row is
  -- live exactly if it was, and unchanged if it is; the store is valid again.
  pub free_row-Freed :
      (s : MemmapEmbedStore V) (row : ℕ)
      → IsValid s
      → row < s.state.num_rows
      → (t : MemmapEmbedStore V) × (free_row np s row ≡ ok t) × Freed s t row
  unfolding free_row save_index
  free_row-Freed s row h lt = elim (Bool-cases (contains row s.state.freelist)) [
    | inl again ↦ (s, rw (lt→ltb _ _ lt, again) refl, Freed-again s row h again)
    | inr first ↦ (
      save_index (release s row),
      rw (lt→ltb _ _ lt, first, write_row_lem s row np.zero_row h.mapped (omega arith)) refl,
      release-Freed s row h lt first,
    )
  ]

  -- Freeing a row a second time changes nothing at all, the order of the free list included.
  pub free_row_twice :
      (s t : MemmapEmbedStore V) (row : ℕ)
      → IsValid s
      → free_row np s row ≡ ok t
      → free_row np t row ≡ ok t
  unfolding free_row save_index write_row
  free_row_twice s t row h run = ground arith
