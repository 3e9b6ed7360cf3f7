-- ===== src/Chunker/Sentence.antt =====
-- `_walk_to_sentence_end`, and where a chunk of the character mode ends.
use longctx.Base.{
  ℕ, ◌+◌, ◌-◌, ◌*◌, ◌≤◌, ◌<◌, min, ◌≡◌, refl, ◌&&◌, some, inl, inr, ◌⊎◌, Bool-cases, Option-cases,
  [], ◌∷◌, arith, ltb, length, drop, length-take, length-drop,
}
use longctx.Chunker.{
  Text, slice, Chunker, last_match_end, walk_to_sentence_end, chunk_end, char_size, char_overlap,
}

length-slice :
    (text : Text) (start end : ℕ) → end ≤ length text → length (slice text start end) ≡ end - start
length-slice text start end le =
    omega (arith, length-take (end - start) (drop start text), length-drop start text)

last_match_end-bounds :
    (at : ℕ) (w : Text) (e : ℕ) → last_match_end at w ≡ some e → (at + 2 ≤ e) × (e ≤ at + length w)
unfolding last_match_end
last_match_end-bounds at [] e h = absurd (ground arith)
last_match_end-bounds at (c ∷ []) e h = absurd (ground arith)
last_match_end-bounds at (c ∷ d ∷ rest) e h =
    ground (arith, last_match_end-bounds (at + 1) (d ∷ rest) e)

-- The walk goes back by at most `slack - 2`, and never forward.
pub walk_to_sentence_end-bounds :
    (text : Text) (end slack : ℕ)
    → end ≤ length text
    → (walk_to_sentence_end text end slack ≤ end)
      × ((walk_to_sentence_end text end slack ≡ end)
          ⊎ (end + 2 ≤ walk_to_sentence_end text end slack + slack))
unfolding walk_to_sentence_end
walk_to_sentence_end-bounds text end slack le =
    elim (Option-cases (last_match_end 0 (slice text (end - slack) end))) [
      | inl miss ↦ rw (miss, walk_to_sentence_end) (omega arith, inl refl)
      | inr (e, found) ↦
          let len = length-slice text (end - slack) end le in
          let (low, high) = last_match_end-bounds 0 (slice text (end - slack) end) e found in
          rw (found, walk_to_sentence_end)
            (omega (arith, len, low, high), inr (omega (arith, len, low, high)))
    ]

-- A configuration whose overlap and slack together fit in a chunk.
pub record Fits (self : Chunker) : Type 0 where
  pub chars : 0 < self.chars_per_token
  pub tokens : 0 < self.tokens_per_chunk
  pub size : 0 < self.tokens_per_chunk * self.chars_per_token
  pub room :
      self.sentence_slack + self.token_overlap * self.chars_per_token
      ≤ self.tokens_per_chunk * self.chars_per_token

module _ (self : Chunker) (f : Fits self) where
  -- A chunk makes progress, stays inside the text and the chunk size, and reaches the end of the
  -- text or beyond the overlap.
  pub chunk_end-bounds :
      (text : Text) (start : ℕ)
      → start < length text
      → (start < chunk_end self text start)
        × (chunk_end self text start ≤ length text)
        × (chunk_end self text start ≤ start + char_size self)
        × ((chunk_end self text start ≡ length text)
            ⊎ (start + char_overlap self ≤ chunk_end self text start))
  unfolding chunk_end
  chunk_end-bounds text start lt =
      let size : ℕ = char_size self in
      let overlap : ℕ = char_overlap self in
      let room : self.sentence_slack + overlap ≤ size = f.room in
      let pos : 0 < size = f.size in
      elim (Bool-cases
        (self.respect_sentences && ltb (min (start + size) (length text)) (length text))) [
          | inl walks ↦
              let open_end : min (start + size) (length text) < length text = ground arith in
              let (le, far) =
                walk_to_sentence_end-bounds text (min (start + size) (length text))
                  self.sentence_slack (omega arith) in
              rw walks (
                omega (arith, far, le, open_end),
                omega (arith, le),
                omega (arith, le),
                inr (omega (arith, far, le, open_end)),
              )
          | inr stays ↦ rw stays (omega arith, omega arith, omega arith, grind arith)
        ]
