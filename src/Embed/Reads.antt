-- ===== src/Embed/Reads.antt =====
-- `get` and `get_batch` of memmap_store.py.
use longctx.Base.{
  ℕ, ◌≤◌, ◌<◌, ◌≡◌, refl, true, some, List, [], ◌∷◌, map, arith, get_elem?, All, All-of-contains,
  lt→ltb,
}
use longctx.Base.Result.{ok, raise, index_error}
use longctx.Embed.{MemmapEmbedStore, Numpy, get, get_batch, append_batch}
use longctx.Embed.Valid.{live, IsValid, Holds, Appended}
use longctx.Embed.Append.{Accepted}
use longctx.Embed.Batch.{append_batch-Appended}

module _ {V : Type 0} where
  pub get_lem :
      (s : MemmapEmbedStore V) (row : ℕ) (v : V)
      → IsValid s
      → row < s.state.num_rows
      → get_elem? s.rows row ≡ some v
      → get s row ≡ ok v
  unfolding get
  get_lem s row v h lt e = rw (lt→ltb _ _ lt, h.mapped, e) refl

  -- A row that was never handed out is refused.
  pub get_out_of_range :
      (s : MemmapEmbedStore V) (row : ℕ) → s.state.num_rows ≤ row → get s row ≡ raise index_error
  unfolding get
  get_out_of_range s row le = ground arith

  get_batch-Holds :
      (s : MemmapEmbedStore V) (rows : List ℕ) (vs : List V)
      → IsValid s
      → All (λ row. live s row ≡ true) rows
      → Holds s.rows rows vs
      → get_batch s rows ≡ ok vs
  unfolding get_batch
  get_batch-Holds s [] [] h l e = refl
  get_batch-Holds s [] (v ∷ vs) h l e = absurd e
  get_batch-Holds s (row ∷ rows) [] h l e = absurd e
  get_batch-Holds s (row ∷ rows) (v ∷ vs) h l e =
      rw (get_lem s row v h (ground arith) e.0, get_batch-Holds s rows vs h l.1 e.1) refl

  -- What was added is live, and `get_batch` of the rows returns the vectors.
  get_batch-Appended :
      {s t : MemmapEmbedStore V} (rows : List ℕ) (vs : List V)
      → Appended s t rows vs
      → get_batch t rows ≡ ok vs
  get_batch-Appended {s} {t} rows vs a =
      get_batch-Holds t rows vs a.valid
        (All-of-contains (λ r. live t r ≡ true) rows (λ r m. ground (arith, a.live_iff r))) a.holds

module _ {V : Type 0} (np : Numpy V) where
  -- On a valid store, `append_batch` of accepted vectors followed by `get_batch` of the rows that it
  -- returned gives the vectors back as float32, in order.
  pub get_batch-append_batch :
      (s : MemmapEmbedStore V) (vs : List V)
      → IsValid s
      → All (Accepted np s) vs
      → (t : MemmapEmbedStore V) × (rows : List ℕ) × (append_batch np s vs ≡ ok (t, rows))
        × (get_batch t rows ≡ ok (map np.as_float32 vs))
  get_batch-append_batch s vs h a =
      let (t, rows, run, added) = append_batch-Appended np s vs h a in
      (t, rows, run, get_batch-Appended rows (map np.as_float32 vs) added)
