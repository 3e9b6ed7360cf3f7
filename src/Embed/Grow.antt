-- ===== src/Embed/Grow.antt =====
-- `_grow` of memmap_store.py, and the loop of `append_batch` that calls it.
use longctx.Base.{
  ℕ, ◌+◌, ◌-◌, ◌≤◌, ◌<◌, max, ◌≡◌, refl, some, arith, get_elem?, take, replicate, length-append,
  length-replicate, get_elem?-append_left, take_of_length-le, ltb, inl, inr, Bool-cases,
}
use longctx.Embed.{MemmapEmbedStore, Numpy, new_capacity, grow, grow_until}
use longctx.Embed.Valid.{IsValid}

module _ {V : Type 0} (np : Numpy V) (s : MemmapEmbedStore V) (k : ℕ) where
  new_capacity-bound : s.state.capacity + max k 1 ≤ new_capacity np s k
  unfolding new_capacity
  new_capacity-bound = omega arith

  pub capacity-grow : s.state.capacity + max k 1 ≤ (grow np s k).state.capacity
  unfolding grow
  capacity-grow = new_capacity-bound

  module _ (h : IsValid s) where
    rows-old : take s.state.capacity s.rows ≡ s.rows
    rows-old = take_of_length-le _ _ (omega arith)

    pub grow-IsValid : IsValid (grow np s k)
    unfolding grow
    grow-IsValid = record {
      mapped = h.mapped;
      file = rw rows-old (
          omega (
            arith,
            length-append s.rows (replicate (new_capacity np s k - s.state.capacity) np.zero_row),
            length-replicate (new_capacity np s k - s.state.capacity) np.zero_row,
            new_capacity-bound,
          ));
      within = omega (arith, new_capacity-bound);
      free_within = h.free_within;
      free_distinct = h.free_distinct;
    }

    pub get_elem?-grow :
        (row : ℕ) → row < s.state.capacity → get_elem? (grow np s k).rows row ≡ get_elem? s.rows row
    unfolding grow
    get_elem?-grow row lt = rw rows-old (get_elem?-append_left s.rows _ row (omega arith))

module _ {V : Type 0} where
  -- What growing leaves: all rows, and all of the bookkeeping but the capacity.
  pub record Grown (s t : MemmapEmbedStore V) : Type 0 where
    pub valid : IsValid t
    pub dim_kept : t.dim ≡ s.dim
    pub validate_kept : t.validate ≡ s.validate
    pub num_rows_kept : t.state.num_rows ≡ s.state.num_rows
    pub freelist_kept : t.state.freelist ≡ s.state.freelist
    pub rows_kept : (row : ℕ) → row < s.state.capacity → get_elem? t.rows row ≡ get_elem? s.rows row

  pub Grown-refl : (s : MemmapEmbedStore V) → IsValid s → Grown s s
  Grown-refl s h = record {
    valid = h;
    dim_kept = refl;
    validate_kept = refl;
    num_rows_kept = refl;
    freelist_kept = refl;
    rows_kept = λ row lt. refl;
  }

  pub Grown-grow :
      (np : Numpy V) (s : MemmapEmbedStore V) (k : ℕ) → IsValid s → Grown s (grow np s k)
  unfolding grow
  Grown-grow np s k h = record {
    valid = grow-IsValid np s k h;
    dim_kept = refl;
    validate_kept = refl;
    num_rows_kept = refl;
    freelist_kept = refl;
    rows_kept = get_elem?-grow np s k h;
  }

  pub num_rows-grow :
      (np : Numpy V) (s : MemmapEmbedStore V) (k : ℕ)
      → (grow np s k).state.num_rows ≡ s.state.num_rows
  unfolding grow
  num_rows-grow np s k = refl

  -- The loop of `append_batch` ends after one growth at most, with the room that it needs.
  pub grow_until-total :
      (np : Numpy V) (s : MemmapEmbedStore V) (n : ℕ)
      → IsValid s
      → (t : MemmapEmbedStore V) × (grow_until np 2 s n ≡ some t)
        × Grown s t
        × (t.state.num_rows + n ≤ t.state.capacity)
  unfolding grow_until
  grow_until-total np s n h = elim (Bool-cases (ltb s.state.capacity (s.state.num_rows + n))) [
    | inl full ↦ (
      grow np s n,
      ground (arith, capacity-grow np s n, num_rows-grow np s n),
      Grown-grow np s n h,
      omega (arith, capacity-grow np s n, num_rows-grow np s n),
    )
    | inr room ↦ (s, ground arith, Grown-refl s h, ground arith)
  ]
