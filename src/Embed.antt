-- ===== src/Embed.antt =====
-- longctx_daemon/storage/memmap_store.py: the embedding store, a memmap with a free list.
-- Vectors and the arithmetic that numpy does on them are a parameter. The memmap and the file under
-- it are one list of rows, since they share their pages. The free list is kept with its last element
-- first, so `pop()` takes the head and `append` conses. The growth factor is a fraction.
pub mod Valid
pub mod Grow
pub mod Append
pub mod Batch
pub mod Free
pub mod Reads
pub mod Open
pub mod Search
pub mod Top
pub mod Hits
pub mod Best
pub mod Reopen
use longctx.Base.{
  ℕ, zero, suc, ◌+◌, ◌-◌, ◌*◌, ◌/◌, max, String, Bool, true, false, not, ◌&&◌, ◌||◌, Option, none,
  some, List, [], ◌∷◌, ◌++◌, map, ltb, leb, ◌==◌, str_eq, if◌then◌else◌, length, get_elem?, set,
  take, replicate, contains, range_from,
}
use longctx.Base.Result.{
  Result, ok, raise, value_error, index_error, type_error, assertion_error, embedder_mismatch,
  ◌>>=◌, ◌>>◌, require,
}

-- What the store asks of numpy: the shape of a vector, its conversion to float32, the two tests of
-- `_assert_normalized` (a zero norm; a deviation above NORM_ATOL), and the zero row.
pub record Numpy (V : Type 0) : Type 0 where
  pub width : V → ℕ
  pub as_float32 : V → V
  pub has_zero_norm : V → Bool
  pub off_unit_norm : V → Bool
  pub zero_row : V

-- `_EmbedIndex`, the pickled sidecar.
pub record EmbedIndex : Type 0 where
  pub num_rows : ℕ
  pub dim : ℕ
  pub model_name : String
  pub model_sha256 : String
  pub freelist : List ℕ
  pub capacity : ℕ

-- `rows` is the .npy file, and what the memmap shows while `mapped`; `idx_file` is the .idx file.
pub record MemmapEmbedStore (V : Type 0) : Type 0 where
  pub dim : ℕ
  pub model_name : String
  pub model_sha256 : String
  pub growth_num : ℕ
  pub growth_den : ℕ
  pub validate : Bool
  pub state : EmbedIndex
  pub mapped : Bool
  pub rows : List V
  pub idx_file : EmbedIndex

module _ {V : Type 0} where
  -- `self._mm[row] = v`: `None` is not subscriptable, and numpy checks the bounds.
  unfoldable pub write_row : MemmapEmbedStore V → ℕ → V → Result (MemmapEmbedStore V)
  write_row s row v = do
    require s.mapped type_error
    require (ltb row (length s.rows)) index_error
    ok (record s { rows = set s.rows row v })

  -- `self._mm[start:start + n] = vs`, for a target that lies inside the memmap.
  unfoldable pub write_rows : MemmapEmbedStore V → ℕ → List V → Result (MemmapEmbedStore V)
  write_rows s start [] = ok s
  write_rows s start (v ∷ vs) = do s' ← write_row s start v; write_rows s' (start + 1) vs

  unfoldable pub save_index : MemmapEmbedStore V → MemmapEmbedStore V
  save_index s = record s { idx_file = s.state }

  unfoldable pub close : MemmapEmbedStore V → MemmapEmbedStore V
  unfolding save_index
  close s = if s.mapped then record (save_index s) { mapped = false } else s

  unfoldable pub get : MemmapEmbedStore V → ℕ → Result V
  get s row = do
    require (ltb row s.state.num_rows) index_error
    require s.mapped type_error
    elim (get_elem? s.rows row) [ none ↦ raise index_error | some v ↦ ok v ]

  unfoldable pub get_batch : MemmapEmbedStore V → List ℕ → Result (List V)
  get_batch s [] = ok []
  get_batch s (row ∷ rest) = do v ← get s row; vs ← get_batch s rest; ok (v ∷ vs)

module _ {V : Type 0} (np : Numpy V) where
  -- `_grow`: the file is extended with zeros, mapped again, and its new tail set to zero.
  unfoldable pub new_capacity : MemmapEmbedStore V → ℕ → ℕ
  new_capacity s min_extra =
      max (s.state.capacity * s.growth_num / s.growth_den + 1) (s.state.capacity + max min_extra 1)

  unfoldable pub grow : MemmapEmbedStore V → ℕ → MemmapEmbedStore V
  grow s min_extra =
      let old_cap = s.state.capacity in
      let new_cap = new_capacity s min_extra in
      record s {
        rows = take old_cap s.rows ++ replicate (new_cap - old_cap) np.zero_row;
        state = record (s.state) { capacity = new_cap };
      }

  -- `while num_rows + remaining > capacity: _grow(min_extra=remaining)`, on fuel.
  unfoldable pub grow_until : ℕ → MemmapEmbedStore V → ℕ → Option (MemmapEmbedStore V)
  grow_until zero s remaining = none
  grow_until (suc fuel) s remaining =
      let rest = grow_until fuel (grow s remaining) remaining in
      if ltb s.state.capacity (s.state.num_rows + remaining) then rest else some s

  unfoldable pub assert_normalized : MemmapEmbedStore V → V → Result (Unit {0})
  assert_normalized s v =
      if not s.validate
      then ok tt
      else if np.has_zero_norm v
      then raise assertion_error
      else require (not (np.off_unit_norm v)) assertion_error

  unfoldable pub assert_all_normalized : MemmapEmbedStore V → List V → Result (Unit {0})
  assert_all_normalized s [] = ok tt
  assert_all_normalized s (v ∷ vs) = do assert_normalized s v; assert_all_normalized s vs

  -- `if num_rows >= capacity: _grow()`
  unfoldable pub make_room : MemmapEmbedStore V → MemmapEmbedStore V
  make_room s = if leb s.state.capacity s.state.num_rows then grow s 0 else s

  -- The two branches of `append`: a row of the free list, or a new one at the end.
  unfoldable pub append_at : MemmapEmbedStore V → V → List ℕ → Result (MemmapEmbedStore V × ℕ)
  append_at s v (row ∷ rest) = do
    s' ← write_row (record s { state = record (s.state) { freelist = rest } }) row v
    ok (s', row)
  append_at s v [] = do
    let grown = make_room s
    let row = grown.state.num_rows
    s' ← write_row grown row v
    ok (record s' { state = record (s'.state) { num_rows = row + 1 } }, row)

  unfoldable pub append : MemmapEmbedStore V → V → Result (MemmapEmbedStore V × ℕ)
  append s v = do
    require (np.width v == s.dim) value_error
    let v' = np.as_float32 v
    assert_normalized s v'
    (s', row) ← append_at s v' s.state.freelist
    ok (save_index s', row)

  -- The first loop of `append_batch`: rows of the free list, as long as there are any. The results
  -- are the store, the rows that were taken, and the vectors that are left.
  unfoldable pub fill_free :
      MemmapEmbedStore V → List ℕ → List V → Result (MemmapEmbedStore V × List ℕ × List V)
  fill_free s fl [] = ok (s, [], [])
  fill_free s [] (v ∷ vs) = ok (s, [], v ∷ vs)
  fill_free s (row ∷ rest) (v ∷ vs) = do
    s' ← write_row (record s { state = record (s.state) { freelist = rest } }) row v
    (s'', rows, left) ← fill_free s' rest vs
    ok (s'', row ∷ rows, left)

  -- The second part: the remaining vectors go to the end, after growing.
  unfoldable pub extend_tail : MemmapEmbedStore V → List V → Result (MemmapEmbedStore V × List ℕ)
  extend_tail s [] = ok (s, [])
  extend_tail s (v ∷ vs) = elim (grow_until 2 s (length (v ∷ vs))) [
    | none ↦ raise value_error
    | some grown ↦ do
      let start = grown.state.num_rows
      s' ← write_rows grown start (v ∷ vs)
      ok (
        record s' { state = record (s'.state) { num_rows = start + length (v ∷ vs) } },
        range_from start (length (v ∷ vs)),
      )
  ]

  unfoldable pub all_widths : ℕ → List V → Bool
  all_widths dim [] = true
  all_widths dim (v ∷ vs) = np.width v == dim && all_widths dim vs

  unfoldable pub append_batch : MemmapEmbedStore V → List V → Result (MemmapEmbedStore V × List ℕ)
  unfolding all_widths
  append_batch s [] = ok (s, [])
  append_batch s (v ∷ vs) = do
    require (all_widths s.dim (v ∷ vs)) value_error
    let batch = map np.as_float32 (v ∷ vs)
    assert_all_normalized s batch
    (s', taken, left) ← fill_free s s.state.freelist batch
    (s'', fresh) ← extend_tail s' left
    ok (save_index s'', taken ++ fresh)

  unfoldable pub free_row : MemmapEmbedStore V → ℕ → Result (MemmapEmbedStore V)
  free_row s row = do
    require (ltb row s.state.num_rows) index_error
    if contains row s.state.freelist then ok s else do
      s' ← write_row s row np.zero_row
      ok (
          save_index
            (record s' { state = record (s'.state) { freelist = row ∷ s'.state.freelist } }))
