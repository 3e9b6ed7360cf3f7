-- ===== src/Embed/Append.antt =====
-- `append` of memmap_store.py, on a valid store.
use longctx.Base.{
  ℕ, ◌+◌, ◌≤◌, ◌<◌, ◌≡◌, refl, ◌∙◌, Bool, true, false, ◌||◌, inl, inr, List, [], ◌∷◌, arith, leb,
  ==_iff, Bool-cases, length, get_elem?, set, contains, All, All-contains, IsDistinct, All-map,
  All-range_from, range_from, contains-range_from, range_from-IsDistinct, sym, ap, length-set,
  get_elem?-set_self, get_elem?-set_ne,
}
use longctx.Base.Result.{ok}
use longctx.Embed.{
  MemmapEmbedStore, Numpy, write_row, write_rows, save_index, assert_normalized, append_at, append,
  make_room,
}
use longctx.Embed.Valid.{live, IsValid, Appended, Holds}
use longctx.Embed.Grow.{Grown, num_rows-grow, Grown-grow, Grown-refl, capacity-grow}

module _ {V : Type 0} where
  pub write_row_lem :
      (s : MemmapEmbedStore V) (row : ℕ) (v : V)
      → s.mapped ≡ true
      → row < length s.rows
      → write_row s row v ≡ ok (record s { rows = set s.rows row v })
  unfolding write_row
  write_row_lem s row v m lt = ground arith

  -- The store after a write to the row at the head of the free list.
  abbrev pub reuse : MemmapEmbedStore V → ℕ → List ℕ → V → MemmapEmbedStore V
  reuse s row rest v = record s {
    state = record (s.state) { freelist = rest };
    rows = set s.rows row v;
  }

  -- The store with `n` more rows behind those handed out so far.
  abbrev pub extended : MemmapEmbedStore V → ℕ → List V → MemmapEmbedStore V
  extended s n file = record s {
    state = record (s.state) { num_rows = s.state.num_rows + n };
    rows = file;
  }

module _ {V : Type 0} (s : MemmapEmbedStore V) (h : IsValid s) (v : V) where
  module _ (row : ℕ) (rest : List ℕ) (e : s.state.freelist ≡ row ∷ rest) where
    pub free_head :
        (row < s.state.num_rows)
        × (contains row rest ≡ false)
        × IsDistinct rest
        × All (λ r. r < s.state.num_rows) rest
    free_head =
        let w : All (λ r. r < s.state.num_rows) (row ∷ rest) = rw e at h.free_within in
        let d : IsDistinct (row ∷ rest) = rw e at h.free_distinct in (w.0, d.0, d.1, w.1)

    pub reuse-Appended : Appended s (reuse s row rest v) (row ∷ []) (v ∷ [])
    reuse-Appended =
        let (lt, out, dist, below) = free_head in
        record {
          valid = record {
            mapped = h.mapped;
            file = length-set s.rows row v ∙ h.file;
            within = h.within;
            free_within = below;
            free_distinct = dist;
          };
          dim_kept = refl;
          validate_kept = refl;
          live_iff = λ r. rw e (ground arith);
          fresh = (rw e (ground arith), tt);
          distinct = (refl, tt);
          kept = λ r l. get_elem?-set_ne s.rows row r v (ground arith);
          holds = (get_elem?-set_self s.rows row v (omega arith), tt);
        }

module _ {V : Type 0} (s : MemmapEmbedStore V) (h : IsValid s) where
  contains-free_end : (k : ℕ) → s.state.num_rows ≤ k → contains k s.state.freelist ≡ false
  contains-free_end k le = elim (Bool-cases (contains k s.state.freelist)) [
    | inl m ↦
        absurd (
          omega
            (arith, All-contains (λ r. r < s.state.num_rows) k s.state.freelist h.free_within m))
    | inr m ↦ m
  ]

  pub extended-Appended :
      (file : List V) (vs : List V)
      → s.state.num_rows + length vs ≤ s.state.capacity
      → length file ≡ length s.rows
      → ((r : ℕ) → r < s.state.num_rows → get_elem? file r ≡ get_elem? s.rows r)
      → Holds file (range_from s.state.num_rows (length vs)) vs
      → Appended s (extended s (length vs) file) (range_from s.state.num_rows (length vs)) vs
  extended-Appended file vs room len old new = record {
    valid = record {
      mapped = h.mapped;
      file = len ∙ h.file;
      within = room;
      free_within =
          All-map (λ r. r < s.state.num_rows) (λ r. r < s.state.num_rows + length vs)
            s.state.freelist (λ r lt. omega arith) h.free_within;
      free_distinct = h.free_distinct;
    };
    dim_kept = refl;
    validate_kept = refl;
    live_iff = λ r.
        ground (arith, contains-free_end r, contains-range_from r s.state.num_rows (length vs));
    fresh =
        All-range_from (λ r. live s r ≡ false) s.state.num_rows (length vs) (λ r le. ground arith);
    distinct = range_from-IsDistinct s.state.num_rows (length vs);
    kept = λ r l. old r (ground arith);
    holds = new;
  }

-- Consecutive writes inside the memmap.
pub write_rows_lem :
    {V : Type 0} (s : MemmapEmbedStore V) (start : ℕ) (vs : List V)
    → s.mapped ≡ true
    → start + length vs ≤ length s.rows
    → (file : List V) × (write_rows s start vs ≡ ok (record s { rows = file }))
      × (length file ≡ length s.rows)
      × ((r : ℕ) → r < start → get_elem? file r ≡ get_elem? s.rows r)
      × Holds file (range_from start (length vs)) vs
unfolding write_rows
write_rows_lem {V} s start [] m room = (s.rows, refl, refl, λ r lt. refl, tt)
write_rows_lem {V} s start (v ∷ vs) m room =
    let written : List V = set s.rows start v in
    let len : length written ≡ length s.rows = length-set s.rows start v in
    let (file, run, same, old, new) =
      write_rows_lem (record s { rows = written }) (start + 1) vs m (omega arith) in
    (
      file,
      rw (write_row_lem s start v m (omega arith)) run,
      same ∙ len,
      λ r lt. old r (omega arith) ∙ get_elem?-set_ne s.rows start r v (omega arith),
      (old start (omega arith) ∙ get_elem?-set_self s.rows start v (omega arith), new),
    )

-- The result of adding to a grown store is one of adding to the store.
pub Appended-Grown :
    {V : Type 0} {s t u : MemmapEmbedStore V} {rows : List ℕ} {vs : List V}
    → IsValid s
    → Grown s t
    → Appended t u rows vs
    → Appended s u rows vs
Appended-Grown {s} {t} {u} {rows} h g a = record {
  valid = a.valid;
  dim_kept = a.dim_kept ∙ g.dim_kept;
  validate_kept = a.validate_kept ∙ g.validate_kept;
  live_iff = λ r. a.live_iff r ∙ ap (λ (b : Bool). b || contains r rows) (same r);
  fresh =
      All-map (λ r. live t r ≡ false) (λ r. live s r ≡ false) rows (λ r e. sym (same r) ∙ e)
        a.fresh;
  distinct = a.distinct;
  kept = λ r l. a.kept r (same r ∙ l) ∙ g.rows_kept r (ground arith);
  holds = a.holds;
}
  where
    same : (r : ℕ) → live t r ≡ live s r
    same r = rw (g.num_rows_kept, g.freelist_kept)

module _ {V : Type 0} where
  -- Saving the sidecar touches nothing that a caller can read from the store.
  pub Appended-save_index :
      {s t : MemmapEmbedStore V} {rows : List ℕ} {vs : List V}
      → Appended s t rows vs
      → Appended s (save_index t) rows vs
  unfolding save_index
  Appended-save_index a = record {
    valid = record {
      mapped = a.valid.mapped;
      file = a.valid.file;
      within = a.valid.within;
      free_within = a.valid.free_within;
      free_distinct = a.valid.free_distinct;
    };
    dim_kept = a.dim_kept;
    validate_kept = a.validate_kept;
    live_iff = a.live_iff;
    fresh = a.fresh;
    distinct = a.distinct;
    kept = a.kept;
    holds = a.holds;
  }

module _ {V : Type 0} (np : Numpy V) where
  -- What `append` and `append_batch` ask of a vector: its width, and the norm if it is checked.
  pub record Accepted (s : MemmapEmbedStore V) (v : V) : Type 0 where
    pub width : np.width v ≡ s.dim
    pub norm : assert_normalized np s (np.as_float32 v) ≡ ok tt

  make_room-Grown :
      (s : MemmapEmbedStore V)
      → IsValid s
      → Grown s (make_room np s)
        × ((make_room np s).state.num_rows < (make_room np s).state.capacity)
  unfolding make_room
  make_room-Grown s h = elim (Bool-cases (leb s.state.capacity s.state.num_rows)) [
    | inl full ↦
        rw full
          (Grown-grow np s 0 h, omega (arith, capacity-grow np s 0, num_rows-grow np s 0, h.within))
    | inr room ↦ rw room (Grown-refl s h, ground arith)
  ]

  -- A vector of the wrong width, or one whose norm fails the check, is refused: nothing is written.
  append_at-Appended :
      (s : MemmapEmbedStore V) (v : V) (fl : List ℕ)
      → IsValid s
      → s.state.freelist ≡ fl
      → (t : MemmapEmbedStore V) × (row : ℕ) × (append_at np s v fl ≡ ok (t, row))
        × Appended s t (row ∷ []) (v ∷ [])
  unfolding append_at
  append_at-Appended s v (row ∷ rest) h e =
      let lt : row < s.state.num_rows = (free_head s h v row rest e).0 in
      (
        reuse s row rest v,
        row,
        rw
            (write_row_lem (record s { state = record (s.state) { freelist = rest } }) row v
              h.mapped (omega arith))
            refl,
        reuse-Appended s h v row rest e,
      )
  append_at-Appended s v [] h e =
      let (g, room) = make_room-Grown s h in
      let t = make_room np s in
      let row = t.state.num_rows in
      (
        extended t 1 (set t.rows row v),
        row,
        rw (write_row_lem t row v g.valid.mapped (omega (arith, g.valid.file))) refl,
        Appended-Grown h g (
            extended-Appended t g.valid (set t.rows row v) (v ∷ []) (omega arith)
              (length-set t.rows row v) (λ r lt. get_elem?-set_ne t.rows row r v (omega arith))
              (get_elem?-set_self t.rows row v (omega (arith, g.valid.file)), tt)),
      )

  -- On a valid store `append` of an accepted vector succeeds. The row that it returns was not live,
  -- it holds the vector as float32, every row that was live is live and unchanged, no other row
  -- becomes live, and the store is valid again.
  pub append-Appended :
      (s : MemmapEmbedStore V) (v : V)
      → IsValid s
      → Accepted s v
      → (t : MemmapEmbedStore V) × (row : ℕ) × (append np s v ≡ ok (t, row))
        × Appended s t (row ∷ []) (np.as_float32 v ∷ [])
  unfolding append
  append-Appended s v h a =
      let (t, row, run, added) = append_at-Appended s (np.as_float32 v) s.state.freelist h refl in
      (save_index t, row, rw ((==_iff _ _).1 a.width, a.norm, run) refl, Appended-save_index added)
