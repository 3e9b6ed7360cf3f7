-- ===== src/Tests/Store.antt =====
-- The embedding store, run and reasoned about on concrete values.
use longctx.Base.{ℕ, ◌+◌, ◌≤◌, ◌≡◌, refl, false, none, some, List, [], ◌∷◌, arith, eq_iff, All}
use longctx.Base.Result.{Result, ok, raise, embedder_mismatch}
use longctx.Embed.{
  EmbedIndex, MemmapEmbedStore, write_row, write_rows, save_index, close, get_batch, new_capacity,
  grow, grow_until, assert_normalized, assert_all_normalized, append, fill_free, extend_tail,
  append_batch, free_row, all_widths,
}
use longctx.Embed.Open.{StoreConfig, create_new, init}
use longctx.Embed.Valid.{live, IsValid, Appended}
use longctx.Embed.Append.{Accepted, append-Appended}
use longctx.Embed.Grow.{Grown, grow_until-total}
use longctx.Embed.Batch.{append_batch-Appended}
use longctx.Embed.Free.{Freed, free_row-Freed}
use longctx.Embed.Reads.{get_batch-append_batch}
use longctx.Embed.Reopen.{Reopens, Changes, under, init-create, init-close, init-close_changed}
use longctx.Tests.{numpy, config, used, used-IsValid}

abbrev axis : List ℕ
axis = 1 ∷ 0 ∷ []

abbrev three : List (List ℕ)
three = axis ∷ (0 ∷ 1 ∷ []) ∷ axis ∷ []

axis-Accepted : Accepted numpy used axis
unfolding assert_normalized
axis-Accepted = record { width = refl; norm = refl }

three-Accepted : All (Accepted numpy used) three
unfolding assert_normalized
three-Accepted = (axis-Accepted, (record { width = refl; norm = refl }, (axis-Accepted, tt)))

-- The store after its row 1 was freed.
abbrev released : MemmapEmbedStore (List ℕ)
released =
    let state : EmbedIndex = record (used.state) { freelist = 1 ∷ 0 ∷ [] } in
    record used {
      rows = (0 ∷ 0 ∷ []) ∷ (0 ∷ 0 ∷ []) ∷ axis ∷ (0 ∷ 0 ∷ []) ∷ [];
      state = state;
      idx_file = state;
    }

free_row_run : free_row numpy used 1 ≡ ok released
unfolding free_row write_row save_index
free_row_run = refl

config-Reopens : Reopens numpy config used
config-Reopens = record {
  growth = omega arith;
  dim_positive = omega arith;
  rows_positive = omega arith;
  mode = refl;
  dim = refl;
  model_name = refl;
  model_sha256 = refl;
}

init_run : init numpy config none ≡ ok (create_new numpy config)
unfolding init
init_run = refl

append-Appended_example :
    (t : MemmapEmbedStore (List ℕ)) × (row : ℕ) × (append numpy used axis ≡ ok (t, row))
    × Appended used t (row ∷ []) (axis ∷ [])
append-Appended_example = append-Appended numpy used axis used-IsValid axis-Accepted

append_batch-Appended_example :
    (t : MemmapEmbedStore (List ℕ)) × (rows : List ℕ) × (append_batch numpy used three
      ≡ ok (t, rows))
    × Appended used t rows three
append_batch-Appended_example = append_batch-Appended numpy used three used-IsValid three-Accepted

get_batch-append_batch_example :
    (t : MemmapEmbedStore (List ℕ)) × (rows : List ℕ) × (append_batch numpy used three
      ≡ ok (t, rows))
    × (get_batch t rows ≡ ok three)
get_batch-append_batch_example = get_batch-append_batch numpy used three used-IsValid three-Accepted

free_row-Freed_example :
    (t : MemmapEmbedStore (List ℕ)) × (free_row numpy used 1 ≡ ok t) × Freed used t 1
free_row-Freed_example = free_row-Freed numpy used 1 used-IsValid (omega arith)

init-create_example :
    IsValid (create_new numpy config)
    × ((row : ℕ) → live (create_new numpy config) row ≡ false)
    × ((create_new numpy config).dim ≡ 2)
unfolding create_new
init-create_example = init-create numpy config (create_new numpy config) init_run

init-close_example :
    (t : MemmapEmbedStore (List ℕ)) × (init numpy config
        (some ((close used).idx_file, (close used).rows))
      ≡ ok t)
    × IsValid t
    × (t.state ≡ used.state)
    × (t.rows ≡ used.rows)
init-close_example = init-close numpy config used used-IsValid config-Reopens

grow_until-total_example :
    (t : MemmapEmbedStore (List ℕ)) × (grow_until numpy 2 used 3 ≡ some t)
    × Grown used t
    × (t.state.num_rows + 3 ≤ t.state.capacity)
grow_until-total_example = grow_until-total numpy used 3 used-IsValid

-- The same embedder with another digest.
abbrev foreign : StoreConfig
foreign = record config { model_sha256 = "e2" }

foreign-Changes : Changes numpy foreign used
foreign-Changes = record {
  growth = omega arith;
  dim_positive = omega arith;
  rows_positive = omega arith;
  dim = refl;
  model_name = refl;
  model_sha256 = λ e. ground (arith, (eq_iff "e1" "e2").1 e);
}

init-close_changed_example :
    (init numpy (under "raise" foreign) (some ((close used).idx_file, (close used).rows))
      ≡ raise embedder_mismatch)
    × (t : MemmapEmbedStore (List ℕ)) × (init numpy
          (under "warn" foreign)
          (some ((close used).idx_file, (close used).rows))
        ≡ ok t)
    × IsValid t
    × (t.rows ≡ used.rows)
    × (t.state ≡ record (used.state) { model_sha256 = "e2" })
    × (u : MemmapEmbedStore (List ℕ)) × (init numpy
          (under "raise" foreign)
          (some ((close t).idx_file, (close t).rows))
        ≡ ok u)
    × (u.state ≡ t.state)
    × (u.rows ≡ used.rows)
init-close_changed_example = init-close_changed numpy foreign used used-IsValid foreign-Changes

abbrev sizes : Result (MemmapEmbedStore (List ℕ) × List ℕ) → Result (List ℕ × ℕ × ℕ)
sizes (ok (t, rows)) = ok (rows, t.state.num_rows, t.state.capacity)
sizes (raise e) = raise e

-- The batch takes the free row, then grows the store from four rows to seven.
append_batch_run : sizes (append_batch numpy used three) ≡ ok (0 ∷ 3 ∷ 4 ∷ [], 5, 7)
unfolding append_batch all_widths assert_all_normalized assert_normalized fill_free extend_tail
    grow_until grow new_capacity write_rows write_row save_index
append_batch_run = refl
