-- ===== src/Searcher/Results.antt =====
-- searcher.py: from the fused table to the chunks of the answer, and `search_multi`. Texts are lists of
-- code points. What the symbol-aware re-rank weighs a chunk by is read from the disk, so it is an
-- argument: `none` where the re-rank does not apply.
use longctx.Base.{
  ℕ, zero, suc, ◌+◌, ◌-◌, ◌/◌, ◌%◌, max, Bool, true, false, ◌&&◌, ◌||◌, Option, none, some, List,
  [], ◌∷◌, ◌++◌, leb, ltb, ◌==◌, if◌then◌else◌, length, contains, drop, take,
}
use longctx.Chunker.{Text}
use longctx.Scope.Paths.{codes}
use longctx.ChunkStore.{ChunkStore, Chunk, get_file_by_id}
use longctx.ChunkStore.Queries.{last}
use longctx.Searcher.{Table}

pub record Citation : Type 0 where
  pub project : Text
  pub file_path : Text
  pub start_line : ℕ
  pub end_line : ℕ

pub record SearchChunk (F : Type 0) : Type 0 where
  pub citation : Citation
  pub text : Text
  pub relevance_score : F
  pub token_count : ℕ
  pub dense_cosine : Option F
  pub chunk_id : ℕ

-- The decimal digits of a number, before those of a text; a number is longer than its digits.
unfoldable pub digits : ℕ → ℕ → Text → Text
digits zero n after = after
digits (suc fuel) n after =
    let now = (48 + n % 10) ∷ after in
    let rest = digits fuel (n / 10) now in if ltb n 10 then now else rest

-- With the file's project in front; for a chunk without a file, a name made of its id.
unfoldable pub build_citation : ChunkStore → Chunk → Citation
unfolding digits
build_citation st chunk = elim (get_file_by_id st chunk.file_id) [
  | some file ↦ record {
    project = codes file.project;
    file_path = codes file.project ++ (47 ∷ codes file.rel_path);
    start_line = chunk.start_line;
    end_line = chunk.end_line;
  }
  | none ↦ record {
    project = [];
    file_path = codes "chunk-" ++ digits (suc chunk.id) chunk.id [];
    start_line = chunk.start_line;
    end_line = chunk.end_line;
  }
]

-- `[0-9a-f]`, over a whole text.
unfoldable pub all_hex : Text → Bool
all_hex [] = true
all_hex (c ∷ cs) = (leb 48 c && leb c 57 || leb 97 c && leb c 102) && all_hex cs

-- A dot and twelve digits, at the end of the text or before its last newline.
unfoldable pub is_hash_suffix : Text → Bool
unfolding all_hex
is_hash_suffix [] = false
is_hash_suffix (c ∷ cs) =
    c == 46 && (all_hex (take 12 cs) && (length (take 12 cs) == 12 && at_end (drop 12 cs)))
  where
    at_end : Text → Bool
    at_end [] = true
    at_end (d ∷ []) = d == 10
    at_end (d ∷ e ∷ ds) = false

-- `_DOC_ROOT_HASH_RE.sub("", text)`
unfoldable pub strip_hash : Text → Text
unfolding is_hash_suffix
strip_hash [] = []
strip_hash (c ∷ cs) =
    let rest = strip_hash cs in if is_hash_suffix (c ∷ cs) then drop 13 (c ∷ cs) else c ∷ rest

-- The key of a chunk in `_build_dedup_keys`. The table's rows stand for the loop's cache of them.
unfoldable pub dedup_key : ChunkStore → Chunk → Option Text
unfolding strip_hash
dedup_key st chunk = elim (get_file_by_id st chunk.file_id) [
  | none ↦ none
  | some file ↦ some (codes file.project ++ (58 ∷ 58 ∷ strip_hash (codes file.rel_path)))
]

unfoldable pub chunk_token_count : ℕ → Chunk → ℕ
chunk_token_count chars_per_token chunk =
    if ltb 0 chunk.token_count
    then chunk.token_count
    else max 1 (length chunk.text / chars_per_token)

abbrev pub text_eq : Text → Text → Bool
text_eq [] [] = true
text_eq [] (d ∷ t) = false
text_eq (c ∷ s) [] = false
text_eq (c ∷ s) (d ∷ t) = c == d && text_eq s t

abbrev pub contains_text : Text → List Text → Bool
contains_text s [] = false
contains_text s (t ∷ ts) = text_eq t s || contains_text s ts

-- Whether the key of a chunk has been taken, and the keys with it.
unfoldable pub is_seen : Option Text → List Text → Bool
is_seen none seen = false
is_seen (some key) seen = contains_text key seen

unfoldable pub see : Option Text → List Text → List Text
see none seen = seen
see (some key) seen = key ∷ seen

-- What the loop over the ranked chunks reads.
pub record Taking (F : Type 0) : Type 0 where
  pub suppress_ids : List ℕ
  pub dedup : Bool
  pub key : Chunk → Option Text
  pub tokens : Chunk → ℕ
  pub max_results : Option ℕ
  pub shown : Chunk → F → SearchChunk F

-- Whether so many results are enough.
abbrev pub is_full : Option ℕ → ℕ → Bool
is_full none n = false
is_full (some most) n = leb most n

module _ {F : Type 0} where
  -- `(chunks_by_id[cid], score) for cid, score in fused if cid in chunks_by_id`, over the chunks that
  -- were fetched.
  unfoldable pub ranked_from : List Chunk → Table F → List (Chunk × F)
  unfolding last
  ranked_from fetched [] = []
  ranked_from fetched ((id, s) ∷ fused) =
      let rest = ranked_from fetched fused in
      elim (last (λ c. c.id == id) fetched) [ none ↦ rest | some c ↦ (c, s) ∷ rest ]

  -- The greedy loop. `kept` counts the results so far: the first is kept whatever it costs. A chunk
  -- costs a token at least, so a budget that is overdrawn admits no more than one of 0.
  unfoldable pub take_chunks :
      Taking F → List (Chunk × F) → ℕ → List Text → ℕ → List (SearchChunk F)
  unfolding is_seen see
  take_chunks t [] budget seen kept = []
  take_chunks t ((chunk, score) ∷ ranked) budget seen kept =
      let key = if t.dedup then t.key chunk else none in
      let suppressed = take_chunks t ranked budget seen kept in
      let after = see key seen in
      let tok = t.tokens chunk in
      let rest = take_chunks t ranked (budget - tok) after (kept + 1) in
      if contains chunk.id t.suppress_ids
      then suppressed
      else if is_seen key seen
      then suppressed
      else if ltb budget tok && ltb 0 kept
      then []
      else if is_full t.max_results (kept + 1)
      then t.shown chunk score ∷ []
      else t.shown chunk score ∷ rest
