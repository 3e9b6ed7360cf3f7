-- ===== src/Tests/Chunks.antt =====
-- The chunker, run and reasoned about on concrete texts.
use longctx.Base.{
  ℕ, ◌+◌, ◌≤◌, ◌<◌, ◌≡◌, refl, ◌⊎◌, true, none, some, List, [], ◌∷◌, map, arith, length, range_from,
}
use longctx.Base.Result.{Result, ok, raise, value_error}
use longctx.Chunker.{
  Text, Chunk, Chunker, init, is_space, is_stop, last_match_end, walk_to_sentence_end, chunk_end,
  stable_id, make_chunk, char_proxy_loop, chunk_char_proxy, chunk, chunk_many,
}
use longctx.Chunker.Sentence.{Fits, chunk_end-bounds}
use longctx.Chunker.Stitch.{Covers, positions}
use longctx.Chunker.Window.{chunk-Covers, chunk_many-numbered}
use longctx.Tests.{digest}

-- Chunks of six characters, with an overlap of two.
abbrev pub small : Chunker
small = record {
  tokens_per_chunk = 3;
  token_overlap = 1;
  chars_per_token = 2;
  respect_sentences = true;
  sentence_slack = 3;
}

pub small-Fits : Fits small
small-Fits = record {
  chars = omega arith;
  tokens = omega arith;
  size = omega arith;
  room = omega arith;
}

-- "abc. defg"
abbrev pub sample : Text
sample = 97 ∷ 98 ∷ 99 ∷ 46 ∷ 32 ∷ 100 ∷ 101 ∷ 102 ∷ 103 ∷ []

chunk_end-bounds_example :
    (0 < chunk_end small sample 0)
    × (chunk_end small sample 0 ≤ 9)
    × (chunk_end small sample 0 ≤ 0 + 6)
    × ((chunk_end small sample 0 ≡ 9) ⊎ (0 + 2 ≤ chunk_end small sample 0))
chunk_end-bounds_example = chunk_end-bounds small small-Fits sample 0 (omega arith)

chunk-Covers_example :
    (chunks : List Chunk) × (chunk digest small none sample 0 ≡ ok chunks)
    × Covers small sample 0 0 chunks
chunk-Covers_example = chunk-Covers digest small sample 0 small-Fits

chunk_many-numbered_example :
    (chunks : List Chunk) × (chunk_many digest small none (sample ∷ sample ∷ []) ≡ ok chunks)
    × (positions chunks ≡ range_from 0 (length chunks))
chunk_many-numbered_example = chunk_many-numbered digest small small-Fits (sample ∷ sample ∷ [])

-- The chunk of a sentence ends behind the space, and the next one overlaps it.
walk_run : walk_to_sentence_end sample 6 3 ≡ 5
unfolding walk_to_sentence_end last_match_end is_space is_stop
walk_run = refl

abbrev offsets : Result (List Chunk) → List (ℕ × ℕ)
offsets (ok chunks) = map (λ c. (c.start_offset, c.end_offset)) chunks
offsets (raise e) = []

chunk_run : offsets (chunk digest small none sample 0) ≡ (0, 5) ∷ (3, 9) ∷ []
unfolding chunk chunk_char_proxy char_proxy_loop make_chunk chunk_end walk_to_sentence_end
    last_match_end is_space is_stop stable_id
chunk_run = refl

init_run :
    init 200 none 4 true none
    ≡ ok (record {
      tokens_per_chunk = 200;
      token_overlap = 20;
      chars_per_token = 4;
      respect_sentences = true;
      sentence_slack = 40;
    })
unfolding init
init_run = refl

init_refused : init 10 (some 10) 4 true none ≡ raise value_error
unfolding init
init_refused = refl
