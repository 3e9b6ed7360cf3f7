-- ===== src/Embed/Batch.antt =====
-- `append_batch` of memmap_store.py, on a valid store.
use longctx.Base.{
  ℕ, ◌<◌, ◌≡◌, refl, true, ap, sym, List, [], ◌∷◌, ◌++◌, map, arith, length, All, range_from,
}
use mathlib.Core.Path.{subst}
use longctx.Base.Result.{ok}
use longctx.Embed.{
  MemmapEmbedStore, Numpy, assert_all_normalized, fill_free, extend_tail, all_widths, append_batch,
  save_index,
}
use longctx.Embed.Valid.{IsValid, Appended, Appended-nil, Appended-trans}
use longctx.Embed.Grow.{grow_until-total}
use longctx.Embed.Append.{
  Accepted, write_row_lem, write_rows_lem, reuse, free_head, reuse-Appended, extended,
  extended-Appended, Appended-Grown, Appended-save_index,
}

module _ {V : Type 0} (np : Numpy V) where
  -- What the free list gives, and the vectors that are left for the tail.
  fill_free-Appended :
      (s : MemmapEmbedStore V) (fl : List ℕ) (vs : List V)
      → IsValid s
      → s.state.freelist ≡ fl
      → (t : MemmapEmbedStore V) × (rows : List ℕ) × (done : List V) × (left : List V) × (fill_free
            np s fl vs
          ≡ ok (t, rows, left))
        × (vs ≡ done ++ left)
        × Appended s t rows done
  unfolding fill_free
  fill_free-Appended s fl [] h e = (s, [], [], [], refl, refl, Appended-nil s h)
  fill_free-Appended s [] (v ∷ vs) h e = (s, [], [], v ∷ vs, refl, refl, Appended-nil s h)
  fill_free-Appended s (row ∷ rest) (v ∷ vs) h e =
      let lt : row < s.state.num_rows = (free_head s h v row rest e).0 in
      let first = reuse-Appended s h v row rest e in
      let (t, rows, done, left, run, split, added) =
        fill_free-Appended (reuse s row rest v) rest vs first.valid refl in
      (
        t,
        row ∷ rows,
        v ∷ done,
        left,
        rw
            (
              write_row_lem (record s { state = record (s.state) { freelist = rest } }) row v
                  h.mapped (omega arith),
              run,
            )
            refl,
        ap (◌∷◌ v) split,
        Appended-trans first added,
      )

  extend_tail-Appended :
      (s : MemmapEmbedStore V) (vs : List V)
      → IsValid s
      → (t : MemmapEmbedStore V) × (rows : List ℕ) × (extend_tail np s vs ≡ ok (t, rows))
        × Appended s t rows vs
  unfolding extend_tail
  extend_tail-Appended s [] h = (s, [], refl, Appended-nil s h)
  extend_tail-Appended s (v ∷ vs) h =
      let (g, grew, grown, room) = grow_until-total np s (length (v ∷ vs)) h in
      let (file, run, len, old, new) =
        write_rows_lem g g.state.num_rows (v ∷ vs) grown.valid.mapped
          (omega (arith, grown.valid.file)) in
      (
        extended g (length (v ∷ vs)) file,
        range_from g.state.num_rows (length (v ∷ vs)),
        rw (grew, extend_tail) (rw run refl),
        Appended-Grown h grown (extended-Appended g grown.valid file (v ∷ vs) room len old new),
      )

  all_widths-true :
      (s : MemmapEmbedStore V) (vs : List V)
      → All (Accepted np s) vs
      → all_widths np s.dim vs ≡ true
  unfolding all_widths
  all_widths-true s [] a = refl
  all_widths-true s (v ∷ vs) (a, as') = ground (arith, a.width, all_widths-true s vs as')

  normalized_batch :
      (s : MemmapEmbedStore V) (vs : List V)
      → All (Accepted np s) vs
      → assert_all_normalized np s (map np.as_float32 vs) ≡ ok tt
  unfolding assert_all_normalized
  normalized_batch s [] a = refl
  normalized_batch s (v ∷ vs) (a, as') = rw (a.norm) (normalized_batch s vs as')

  -- On a valid store `append_batch` of accepted vectors succeeds. The rows that it returns are
  -- distinct, none was live before, and they hold the vectors as float32, one for one and in order.
  -- Every row that was live is live and unchanged, no other row becomes live, and the store is valid.
  pub append_batch-Appended :
      (s : MemmapEmbedStore V) (vs : List V)
      → IsValid s
      → All (Accepted np s) vs
      → (t : MemmapEmbedStore V) × (rows : List ℕ) × (append_batch np s vs ≡ ok (t, rows))
        × Appended s t rows (map np.as_float32 vs)
  unfolding append_batch
  append_batch-Appended s [] h a = (s, [], refl, Appended-nil s h)
  append_batch-Appended s (v ∷ vs) h a =
      let batch = map np.as_float32 (v ∷ vs) in
      let (t, taken, done, left, run, split, added) =
        fill_free-Appended s s.state.freelist batch h refl in
      let (u, fresh, run', added') = extend_tail-Appended t left added.valid in
      (
        save_index u,
        taken ++ fresh,
        rw (all_widths-true s (v ∷ vs) a, normalized_batch s (v ∷ vs) a, run, run') refl,
        Appended-save_index (
            subst (λ b. Appended s u (taken ++ fresh) b) (sym split) (Appended-trans added added')),
      )
