-- ===== src/Embed/Reopen.antt =====
-- `close` of memmap_store.py, and a second `__init__` on the same directory.
use longctx.Base.{
  ℕ, String, ◌-◌, ◌<◌, ◌≡◌, ◌≢◌, refl, ◌∙◌, true, false, ◌||◌, some, none, ap, str_eq, eq_iff, ◌++◌,
  arith, length, lt→ltb, take, replicate, take_of_length-le, length-replicate,
}
use mathlib.Core.List.{append-nil}
use longctx.Base.Result.{ok, raise, embedder_mismatch}
use longctx.Embed.{MemmapEmbedStore, EmbedIndex, Numpy, close}
use longctx.Embed.Open.{StoreConfig, init, create_new, open_existing}
use longctx.Embed.Valid.{live, IsValid}

-- The same arguments under another policy.
abbrev pub under : String → StoreConfig → StoreConfig
under policy c = record c { on_mismatch = policy }

module _ {V : Type 0} (np : Numpy V) where
  create_new-IsValid :
      (c : StoreConfig)
      → IsValid (create_new np c)
        × ((row : ℕ) → live (create_new np c) row ≡ false)
        × ((create_new np c).dim ≡ c.dim)
  unfolding create_new
  create_new-IsValid c = (
    record {
      mapped = refl;
      file = length-replicate c.initial_rows np.zero_row;
      within = omega arith;
      free_within = tt;
      free_distinct = tt;
    },
    λ row. ground arith,
    refl,
  )

  -- Every argument that `__init__` accepts for a fresh directory gives a valid store with no live row.
  pub init-create :
      (c : StoreConfig) (s : MemmapEmbedStore V)
      → init np c none ≡ ok s
      → IsValid s × ((row : ℕ) → live s row ≡ false) × (s.dim ≡ c.dim)
  unfolding init
  init-create c s run =
      let made : s ≡ create_new np c = ground arith in rw made (create_new-IsValid c)

  -- The arguments pass the checks of `__init__`, and name the embedder that the store was made with.
  pub record Reopens (c : StoreConfig) (s : MemmapEmbedStore V) : Type 0 where
    pub growth : c.growth_den < c.growth_num
    pub dim_positive : 0 < c.dim
    pub rows_positive : 0 < c.initial_rows
    pub mode : (str_eq c.on_mismatch "raise" || str_eq c.on_mismatch "warn") ≡ true
    pub dim : s.state.dim ≡ c.dim
    pub model_name : s.state.model_name ≡ c.model_name
    pub model_sha256 : s.state.model_sha256 ≡ c.model_sha256

  -- The store that a second `__init__` makes of the files of `s`.
  abbrev reopened : StoreConfig → MemmapEmbedStore V → MemmapEmbedStore V
  reopened c s =
      let state : EmbedIndex = record (s.state) { model_sha256 = c.model_sha256 } in
      record {
        dim = c.dim;
        model_name = c.model_name;
        model_sha256 = c.model_sha256;
        growth_num = c.growth_num;
        growth_den = c.growth_den;
        validate = c.validate;
        state = state;
        mapped = true;
        rows =
            take s.state.capacity s.rows
            ++ replicate (s.state.capacity - length s.rows) np.zero_row;
        idx_file = state;
      }

  open_existing-reopened :
      (c : StoreConfig) (s : MemmapEmbedStore V)
      → Reopens c s
      → open_existing np c s.state s.rows ≡ ok (reopened c s)
  unfolding open_existing
  open_existing-reopened c s r =
      ground
        (arith, eq_iff s.state.model_name c.model_name, eq_iff s.state.model_sha256 c.model_sha256)

  init-reopened :
      (c : StoreConfig) (s : MemmapEmbedStore V)
      → IsValid s
      → Reopens c s
      → init np c (some ((close s).idx_file, (close s).rows)) ≡ ok (reopened c s)
  unfolding init close
  init-reopened c s h r =
      rw
        (
          lt→ltb _ _ r.growth,
          lt→ltb _ _ r.dim_positive,
          lt→ltb _ _ r.rows_positive,
          r.mode,
          h.mapped,
        )
        (open_existing-reopened c s r)

  rows-reopened :
      (c : StoreConfig) (s : MemmapEmbedStore V) → IsValid s → (reopened c s).rows ≡ s.rows
  rows-reopened c s h =
      let full : s.state.capacity - length s.rows ≡ 0 = omega (arith, h.file) in
      rw (take_of_length-le s.state.capacity s.rows (omega (arith, h.file)), full)
        (append-nil s.rows)

  reopened-IsValid : (c : StoreConfig) (s : MemmapEmbedStore V) → IsValid s → IsValid (reopened c s)
  reopened-IsValid c s h = record {
    mapped = refl;
    file = ap length (rows-reopened c s h) ∙ h.file;
    within = h.within;
    free_within = h.free_within;
    free_distinct = h.free_distinct;
  }

  -- Closing a valid store and opening it again with the same embedder gives back every row, the
  -- counter, the free list and the capacity, in a valid store.
  pub init-close :
      (c : StoreConfig) (s : MemmapEmbedStore V)
      → IsValid s
      → Reopens c s
      → (t : MemmapEmbedStore V) × (init np c (some ((close s).idx_file, (close s).rows)) ≡ ok t)
        × IsValid t
        × (t.state ≡ s.state)
        × (t.rows ≡ s.rows)
  init-close c s h r = (
    reopened c s,
    init-reopened c s h r,
    reopened-IsValid c s h,
    cc r.model_sha256,
    rows-reopened c s h,
  )

  -- The arguments pass the checks of `__init__`, and differ from the embedder that the store was made
  -- with by the digest only.
  pub record Changes (c : StoreConfig) (s : MemmapEmbedStore V) : Type 0 where
    pub growth : c.growth_den < c.growth_num
    pub dim_positive : 0 < c.dim
    pub rows_positive : 0 < c.initial_rows
    pub dim : s.state.dim ≡ c.dim
    pub model_name : s.state.model_name ≡ c.model_name
    pub model_sha256 : s.state.model_sha256 ≢ c.model_sha256

  init_refuses :
      (c : StoreConfig) (s : MemmapEmbedStore V)
      → IsValid s
      → Changes c s
      → init np (under "raise" c) (some ((close s).idx_file, (close s).rows))
        ≡ raise embedder_mismatch
  unfolding init open_existing close
  init_refuses c s h d =
      rw (lt→ltb _ _ d.growth, lt→ltb _ _ d.dim_positive, lt→ltb _ _ d.rows_positive, h.mapped)
        (ground (
          arith,
          d.dim,
          eq_iff s.state.model_name c.model_name,
          d.model_name,
          eq_iff s.state.model_sha256 c.model_sha256,
          d.model_sha256,
        ))

  init_warns :
      (c : StoreConfig) (s : MemmapEmbedStore V)
      → IsValid s
      → Changes c s
      → init np (under "warn" c) (some ((close s).idx_file, (close s).rows)) ≡ ok (reopened c s)
  unfolding init open_existing close
  init_warns c s h d =
      rw (lt→ltb _ _ d.growth, lt→ltb _ _ d.dim_positive, lt→ltb _ _ d.rows_positive, h.mapped)
        (ground (arith, d.dim, eq_iff s.state.model_name c.model_name, d.model_name))

  -- The files of a valid store that was closed, and an embedder that differs by its digest only. Under
  -- `raise` they are refused. Under `warn` they open as a valid store with every row, the counter, the
  -- free list and the capacity, and the new digest; and once that store is closed, the new embedder
  -- opens it with every row under `raise` as well.
  pub init-close_changed :
      (c : StoreConfig) (s : MemmapEmbedStore V)
      → IsValid s
      → Changes c s
      → (init np (under "raise" c) (some ((close s).idx_file, (close s).rows))
          ≡ raise embedder_mismatch)
        × (t : MemmapEmbedStore V) × (init np
              (under "warn" c)
              (some ((close s).idx_file, (close s).rows))
            ≡ ok t)
        × IsValid t
        × (t.rows ≡ s.rows)
        × (t.state ≡ record (s.state) { model_sha256 = c.model_sha256 })
        × (u : MemmapEmbedStore V) × (init np
              (under "raise" c)
              (some ((close t).idx_file, (close t).rows))
            ≡ ok u)
        × (u.state ≡ t.state)
        × (u.rows ≡ s.rows)
  init-close_changed c s h d =
      let valid = reopened-IsValid c s h in
      let (u, run, _, state, rows) = init-close (under "raise" c) (reopened c s) valid (record {
        growth = d.growth;
        dim_positive = d.dim_positive;
        rows_positive = d.rows_positive;
        mode = refl;
        dim = d.dim;
        model_name = d.model_name;
        model_sha256 = refl;
      }) in
      (
        init_refuses c s h d,
        reopened c s,
        init_warns c s h d,
        valid,
        rows-reopened c s h,
        refl,
        u,
        run,
        state,
        rows ∙ rows-reopened c s h,
      )
