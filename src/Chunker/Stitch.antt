-- ===== src/Chunker/Stitch.antt =====
-- The text that overlapping chunks hold when they are joined, and what a run of the chunking leaves.
use longctx.Base.{
  ℕ, zero, suc, ◌+◌, ◌-◌, ◌≤◌, ◌<◌, ◌≡◌, refl, sym, ap, ◌∙◌, List, [], ◌∷◌, ◌++◌, arith, length,
  take, drop, take-append-drop, range_from, map, All,
}
use native.Mathlib.Nat.{zero-add, suc-add}
use longctx.Chunker.{Text, slice, Chunk, Chunker, char_size}

drop-nil : (a : ℕ) → drop {A = ℕ} a [] ≡ []
drop-nil zero = refl
drop-nil (suc a) = refl

pub drop_of_length-le : (n : ℕ) (xs : Text) → length xs ≤ n → drop n xs ≡ []
drop_of_length-le n [] h = drop-nil n
drop_of_length-le zero (x ∷ xs) h = absurd (omega arith)
drop_of_length-le (suc n) (x ∷ xs) h = drop_of_length-le n xs (omega arith)

drop-drop : (a s : ℕ) (xs : Text) → drop a (drop s xs) ≡ drop (s + a) xs
drop-drop a zero xs = rw zero-add
drop-drop a (suc s) [] = rw suc-add (drop-nil a)
drop-drop a (suc s) (x ∷ xs) = rw suc-add (drop-drop a s xs)

drop-take-drop : (a b : ℕ) (ys : Text) → drop a (take (a + b) ys) ++ drop (a + b) ys ≡ drop a ys
drop-take-drop zero b ys = rw zero-add (take-append-drop b ys)
drop-take-drop (suc a) b [] = rw suc-add
drop-take-drop (suc a) b (y ∷ ys) = rw suc-add (drop-take-drop a b ys)

-- The part of a slice behind `pos`, and what follows the slice, is the text behind `pos`.
pub slice_split :
    (text : Text) (start pos end : ℕ)
    → start ≤ pos
    → pos ≤ end
    → drop (pos - start) (slice text start end) ++ drop end text ≡ drop pos text
slice_split text start pos end le le' =
    let a : ℕ = pos - start in
    let b : ℕ = end - pos in
    let size : end - start ≡ a + b = omega arith in
    let at_end : end ≡ start + (a + b) = omega arith in
    let at_pos : pos ≡ start + a = omega arith in
    ap (λ k. drop a (take k (drop start text)) ++ drop end text) size
    ∙ ap (λ k. drop a (take (a + b) (drop start text)) ++ drop k text) at_end
    ∙ ap (λ k. drop a (take (a + b) (drop start text)) ++ k) (sym (drop-drop (a + b) start text))
    ∙ drop-take-drop a b (drop start text)
    ∙ drop-drop a start text
    ∙ ap (λ k. drop k text) (sym at_pos)

-- The text that consecutive chunks hold behind `pos`: each chunk's part behind the end of the one
-- before it.
unfoldable pub stitch : ℕ → List Chunk → Text
stitch pos [] = []
stitch pos (c ∷ chunks) = drop (pos - c.start_offset) c.text ++ stitch c.end_offset chunks

-- A chunk is a window of the text: not empty, within the size, and with the text of its offsets.
pub record IsWindow (self : Chunker) (text : Text) (c : Chunk) : Type 0 where
  pub nonempty : c.start_offset < c.end_offset
  pub inside : c.end_offset ≤ length text
  pub sized : c.end_offset ≤ c.start_offset + char_size self
  pub content : c.text ≡ slice text c.start_offset c.end_offset

abbrev pub positions : List Chunk → List ℕ
positions = map (λ c. c.id.position)

-- What a run of the loop from `start` gives, where the text up to `pos` is already covered.
pub record Covers (self : Chunker) (text : Text) (pos position : ℕ) (chunks : List Chunk)
    : Type 0 where
  pub whole : stitch pos chunks ≡ drop pos text
  pub windows : All (IsWindow self text) chunks
  pub numbered : positions chunks ≡ range_from position (length chunks)
