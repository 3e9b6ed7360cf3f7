-- ===== src/Chunker.antt =====
-- longctx/rag/chunker.py: splitting a text into overlapping chunks with stable ids.
-- A text is its code points. A chunk's id is kept as its two parts, the position and the digest,
-- and the digest (`hashlib.sha1`) is a parameter, as is the optional tokenizer. Texts hold no lone
-- surrogates, which the encoding to UTF-8 before the digest would refuse.
pub mod Sentence
pub mod Stitch
pub mod Window
use longctx.Base.{
  ℕ, zero, suc, ◌+◌, ◌-◌, ◌*◌, ◌/◌, min, max, String, Bool, true, false, not, ◌&&◌, ◌||◌, Option,
  none, some, List, [], ◌∷◌, ◌++◌, map, ltb, leb, ◌==◌, if◌then◌else◌, length, get_elem?, take,
  drop,
}
use longctx.Base.Result.{
  Result, ok, raise, value_error, zero_division, index_error, out_of_fuel, ◌>>=◌, ◌>>◌, require,
}

abbrev pub Text : Type 0
Text = List ℕ

-- `text[start:end]`
abbrev pub slice : Text → ℕ → ℕ → Text
slice text start end = take (end - start) (drop start text)

pub record StableId : Type 0 where
  pub position : ℕ
  pub digest : String

-- `Chunk` of coarse_filter.py.
pub record Chunk : Type 0 where
  pub id : StableId
  pub text : Text
  pub start_offset : ℕ
  pub end_offset : ℕ
  pub token_count : ℕ

pub record Chunker : Type 0 where
  pub tokens_per_chunk : ℕ
  pub token_overlap : ℕ
  pub chars_per_token : ℕ
  pub respect_sentences : Bool
  pub sentence_slack : ℕ

-- `__init__`; `0.05` of a size is a twentieth of it, rounded down.
unfoldable pub init : ℕ → Option ℕ → ℕ → Bool → Option ℕ → Result Chunker
init tokens_per_chunk token_overlap chars_per_token respect_sentences sentence_slack = do
  require (leb 1 tokens_per_chunk) value_error
  let overlap : ℕ = elim token_overlap [ none ↦ max (tokens_per_chunk / 10) 1 | some o ↦ o ]
  require (ltb overlap tokens_per_chunk) value_error
  let slack : ℕ = elim sentence_slack [
    | none ↦ max (tokens_per_chunk * chars_per_token / 20) 32
    | some s ↦ s
  ]
  ok (record {
    tokens_per_chunk = tokens_per_chunk;
    token_overlap = overlap;
    chars_per_token = chars_per_token;
    respect_sentences = respect_sentences;
    sentence_slack = slack;
  })

-- `\s` of a str pattern.
unfoldable pub is_space : ℕ → Bool
is_space c =
    leb 9 c && leb c 13
    || leb 28 c && leb c 32
    || c == 0x85
    || c == 0xa0
    || c == 0x1680
    || leb 0x2000 c && leb c 0x200a
    || c == 0x2028
    || c == 0x2029
    || c == 0x202f
    || c == 0x205f
    || c == 0x3000

-- `[.!?]`
unfoldable pub is_stop : ℕ → Bool
is_stop c = c == b'.' || c == b'!' || c == b'?'

-- The end of the last match of `[.!?]\s` in a window that begins at offset `at`. No match overlaps
-- another, as no character is both.
unfoldable pub last_match_end : ℕ → Text → Option ℕ
unfolding is_space is_stop
last_match_end at [] = none
last_match_end at (c ∷ []) = none
last_match_end at (c ∷ d ∷ rest) =
    let later = last_match_end (at + 1) (d ∷ rest) in
    elim later [ some e ↦ some e | none ↦ if is_stop c && is_space d then some (at + 2) else none ]

-- `_walk_to_sentence_end`
unfoldable pub walk_to_sentence_end : Text → ℕ → ℕ → ℕ
walk_to_sentence_end text end slack =
    let lo = end - slack in
    elim (last_match_end 0 (slice text lo end)) [ none ↦ end | some e ↦ lo + e ]

module _ (self : Chunker) where
  abbrev pub char_size : ℕ
  char_size = self.tokens_per_chunk * self.chars_per_token

  abbrev pub char_overlap : ℕ
  char_overlap = self.token_overlap * self.chars_per_token

  -- Where a chunk that begins at `start` ends.
  unfoldable pub chunk_end : Text → ℕ → ℕ
  chunk_end text start =
      let n = length text in
      let end = min (start + char_size) n in
      if self.respect_sentences && ltb end n
      then walk_to_sentence_end text end self.sentence_slack
      else end

module _ (sha1 : Text → String) where
  unfoldable pub stable_id : ℕ → Text → StableId
  stable_id position text = record { position = position; digest = sha1 text }

  module _ (self : Chunker) where
    unfoldable pub make_chunk : Text → ℕ → ℕ → ℕ → Chunk
    unfolding stable_id
    make_chunk text position start end =
        let piece = slice text start end in
        record {
          id = stable_id position piece;
          text = piece;
          start_offset = start;
          end_offset = end;
          token_count = max (length piece / self.chars_per_token) 1;
        }

    -- The loop of `_chunk_char_proxy`.
    unfoldable pub char_proxy_loop : ℕ → Text → ℕ → ℕ → Result (List Chunk)
    unfolding make_chunk chunk_end
    char_proxy_loop zero text start position = raise out_of_fuel
    char_proxy_loop (suc fuel) text start position =
        if leb (length text) start
        then ok []
        else if self.chars_per_token == 0
        then raise zero_division
        else let end = chunk_end self text start in
          let chunk = make_chunk text position start end in
          let rest =
            char_proxy_loop fuel text (max (end - char_overlap self) (start + 1)) (position + 1) in
          if end == length text then ok (chunk ∷ []) else do chunks ← rest; ok (chunk ∷ chunks)

    unfoldable pub chunk_char_proxy : Text → ℕ → Result (List Chunk)
    chunk_char_proxy text base_position = char_proxy_loop (length text + 1) text 0 base_position

    -- The loop of `_chunk_with_tokenizer`; the offsets are those of the tokenizer's result.
    unfoldable pub token_loop : ℕ → Text → List (ℕ × ℕ) → ℕ → ℕ → Result (List Chunk)
    unfolding stable_id
    token_loop zero text offsets start_tok position = raise out_of_fuel
    token_loop (suc fuel) text offsets start_tok position =
        let n_tok = length offsets in
        let end_tok = min (start_tok + self.tokens_per_chunk) n_tok in
        let next = max (end_tok - self.token_overlap) (start_tok + 1) in
        let rest = token_loop fuel text offsets next (position + 1) in
        if leb n_tok start_tok then ok [] else elim (get_elem? offsets start_tok) [
          | none ↦ raise index_error
          | some (char_start, _) ↦ elim (get_elem? offsets (end_tok - 1)) [
            | none ↦ raise index_error
            | some (_, char_end) ↦
                let piece = slice text char_start char_end in
                let chunk : Chunk = record {
                  id = stable_id position piece;
                  text = piece;
                  start_offset = char_start;
                  end_offset = char_end;
                  token_count = end_tok - start_tok;
                } in
                if end_tok == n_tok then ok (chunk ∷ []) else do chunks ← rest; ok (chunk ∷ chunks)
          ]
        ]

    -- `none` for a tokenizer that does not support `return_offsets_mapping`.
    unfoldable pub chunk_with_tokenizer :
        (Text → Option (List (ℕ × ℕ))) → Text → ℕ → Result (List Chunk)
    chunk_with_tokenizer tokenizer text base_position = elim (tokenizer text) [
      | none ↦ chunk_char_proxy text base_position
      | some offsets ↦ token_loop (length offsets + 1) text offsets 0 base_position
    ]

    unfoldable pub chunk : Option (Text → Option (List (ℕ × ℕ))) → Text → ℕ → Result (List Chunk)
    chunk tokenizer [] base_position = ok []
    chunk none (c ∷ text) base_position = chunk_char_proxy (c ∷ text) base_position
    chunk (some tokenizer) (c ∷ text) base_position =
        chunk_with_tokenizer tokenizer (c ∷ text) base_position

    -- `chunk_many`, with what was collected so far.
    unfoldable pub chunk_many_from :
        Option (Text → Option (List (ℕ × ℕ))) → List Chunk → List Text → Result (List Chunk)
    chunk_many_from tokenizer out [] = ok out
    chunk_many_from tokenizer out (t ∷ texts) = do
      chunks ← chunk tokenizer t (length out)
      chunk_many_from tokenizer (out ++ chunks) texts

    unfoldable pub chunk_many :
        Option (Text → Option (List (ℕ × ℕ))) → List Text → Result (List Chunk)
    chunk_many tokenizer texts = chunk_many_from tokenizer [] texts
