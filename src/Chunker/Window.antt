-- ===== src/Chunker/Window.antt =====
-- chunker.py: the loop of `_chunk_char_proxy`, and `chunk_many` over it.
use longctx.Base.{
  ℕ, zero, suc, ◌+◌, ◌-◌, ◌≤◌, ◌<◌, max, ◌≡◌, refl, sym, ap, ◌∙◌, String, false, none, inl, inr,
  Bool-cases, List, [], ◌∷◌, ◌++◌, arith, leb, ◌==◌, length, drop, range_from, length-append,
}
use native.Mathlib.Nat.{zero-add, suc-add, add-zero}
use longctx.Base.Result.{ok}
use longctx.Chunker.{
  Text, slice, Chunk, Chunker, chunk_end, make_chunk, char_overlap, char_proxy_loop,
  chunk_char_proxy, chunk, chunk_many, chunk_many_from,
}
use longctx.Chunker.Sentence.{Fits, chunk_end-bounds}
use longctx.Chunker.Stitch.{drop_of_length-le, slice_split, stitch, IsWindow, positions, Covers}

module _ (sha1 : Text → String) (self : Chunker) (f : Fits self) (text : Text) where
  make_chunk-IsWindow :
      (position start : ℕ)
      → start < length text
      → IsWindow self text (make_chunk sha1 self text position start (chunk_end self text start))
  unfolding make_chunk
  make_chunk-IsWindow position start lt =
      let (progress, inside, sized, far) = chunk_end-bounds self f text start lt in
      record { nonempty = progress; inside = inside; sized = sized; content = refl }

  last_chunk-Covers :
      (start pos position : ℕ)
      → start < length text
      → start ≤ pos
      → pos ≤ length text
      → chunk_end self text start ≡ length text
      → Covers self text pos position
          (make_chunk sha1 self text position start (chunk_end self text start) ∷ [])
  unfolding make_chunk stitch
  last_chunk-Covers start pos position lt le le' e = record {
    whole =
        ap (λ k. drop (pos - start) (slice text start (chunk_end self text start)) ++ k)
          (sym (drop_of_length-le (chunk_end self text start) text (omega arith)))
        ∙ slice_split text start pos (chunk_end self text start) le (omega arith);
    windows = (make_chunk-IsWindow position start lt, tt);
    numbered = refl;
  }

  more_chunks-Covers :
      (start pos position : ℕ) (chunks : List Chunk)
      → start < length text
      → start ≤ pos
      → pos ≤ chunk_end self text start
      → Covers self text (chunk_end self text start) (position + 1) chunks
      → Covers self text pos position
          (make_chunk sha1 self text position start (chunk_end self text start) ∷ chunks)
  unfolding make_chunk stitch
  more_chunks-Covers start pos position chunks lt le le' c = record {
    whole = rw c.whole (slice_split text start pos (chunk_end self text start) le le');
    windows = (make_chunk-IsWindow position start lt, c.windows);
    numbered = ap (◌∷◌ position) c.numbered;
  }

  char_proxy_loop-Covers :
      (fuel start pos position : ℕ)
      → start < length text
      → start ≤ pos
      → pos ≤ length text
      → pos ≤ start + char_overlap self
      → length text < fuel + start
      → (chunks : List Chunk) × (char_proxy_loop sha1 self fuel text start position ≡ ok chunks)
        × Covers self text pos position chunks
  unfolding char_proxy_loop
  char_proxy_loop-Covers zero start pos position lt le le' near enough = absurd (omega arith)
  char_proxy_loop-Covers (suc fuel) start pos position lt le le' near enough =
      let end = chunk_end self text start in
      let here = make_chunk sha1 self text position start end in
      let (progress, inside, sized, far) = chunk_end-bounds self f text start lt in
      let open_text : leb (length text) start ≡ false = ground arith in
      let chars : (self.chars_per_token == 0) ≡ false = ground (arith, f.chars) in
      elim (Bool-cases (end == length text)) [
        | inl last ↦ (
          here ∷ [],
          rw (open_text, chars, last) refl,
          last_chunk-Covers start pos position lt le le' (ground arith),
        )
        | inr more ↦
            let start' = max (end - char_overlap self) (start + 1) in
            let open_end : end < length text = ground arith in
            let (chunks, run, covers) =
              char_proxy_loop-Covers fuel start' end (position + 1) (omega arith) (omega arith)
                (omega arith) (omega arith) (omega arith) in
            (
              here ∷ chunks,
              rw (open_text, chars, more, run) refl,
              more_chunks-Covers start pos position chunks lt le (omega (arith, far)) covers,
            )
      ]

-- Without a tokenizer `chunk` succeeds on every text, where the overlap and the slack fit in a
-- chunk. Each chunk is a non-empty window of the text, no longer than the chunk size and with the
-- text of its offsets; stitched together the chunks give the whole text; and their positions count
-- up from the base position.
pub chunk-Covers :
    (sha1 : Text → String) (self : Chunker) (text : Text) (base_position : ℕ)
    → Fits self
    → (chunks : List Chunk) × (chunk sha1 self none text base_position ≡ ok chunks)
      × Covers self text 0 base_position chunks
unfolding chunk chunk_char_proxy stitch
chunk-Covers sha1 self [] base_position f =
    ([], refl, record { whole = refl; windows = tt; numbered = refl })
chunk-Covers sha1 self (c ∷ text) base_position f =
    char_proxy_loop-Covers sha1 self f (c ∷ text) (length (c ∷ text) + 1) 0 0 base_position
      (omega arith) (omega arith) (omega arith) (omega arith) (omega arith)

range_from-append :
    (start n m : ℕ) → range_from start (n + m) ≡ range_from start n ++ range_from (start + n) m
range_from-append start zero m = rw (zero-add, add-zero)
range_from-append start (suc n) m = rw suc-add (
    ap (◌∷◌ start) (
      range_from-append (start + 1) n m
      ∙ ap (λ k. range_from (start + 1) n ++ range_from k m) (omega arith)))

positions-append : (xs ys : List Chunk) → positions (xs ++ ys) ≡ positions xs ++ positions ys
positions-append [] ys = refl
positions-append (x ∷ xs) ys = ap (◌∷◌ x.id.position) (positions-append xs ys)

module _ (sha1 : Text → String) (self : Chunker) (f : Fits self) where
  chunk_many_from-numbered :
      (out : List Chunk) (texts : List Text)
      → positions out ≡ range_from 0 (length out)
      → (chunks : List Chunk) × (chunk_many_from sha1 self none out texts ≡ ok chunks)
        × (positions chunks ≡ range_from 0 (length chunks))
  unfolding chunk_many_from
  chunk_many_from-numbered out [] e = (out, refl, e)
  chunk_many_from-numbered out (t ∷ texts) e =
      let (chunks, run, covers) = chunk-Covers sha1 self t (length out) f in
      let joined : positions (out ++ chunks) ≡ range_from 0 (length (out ++ chunks)) =
        positions-append out chunks
        ∙ ap (λ k. k ++ positions chunks) e
        ∙ ap (λ k. range_from 0 (length out) ++ k) covers.numbered
        ∙ ap (λ k. range_from 0 (length out) ++ range_from k (length chunks)) (omega arith)
        ∙ sym (range_from-append 0 (length out) (length chunks))
        ∙ ap (range_from 0) (sym (length-append out chunks)) in
      let (all, run', numbered) = chunk_many_from-numbered (out ++ chunks) texts joined in
      (all, rw run run', numbered)

  -- Over any sequence of documents `chunk_many` succeeds, and its chunks are numbered 0, 1, 2, ...
  -- in the order of the result.
  pub chunk_many-numbered :
      (texts : List Text)
      → (chunks : List Chunk) × (chunk_many sha1 self none texts ≡ ok chunks)
        × (positions chunks ≡ range_from 0 (length chunks))
  unfolding chunk_many
  chunk_many-numbered texts = chunk_many_from-numbered [] texts refl
