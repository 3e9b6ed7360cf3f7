-- ===== src/Indexer.antt =====
-- longctx_daemon/indexer.py: indexing a file into the chunk store and the embedding store.
-- The file system, the hash, the codecs, the embedder and the filter chain are parameters.
pub mod Remove
pub mod Consistent
pub mod Assign
pub mod Replace
pub mod Swap
pub mod Index
pub mod Manage
pub mod Scan
pub mod Drop
pub mod Again
pub mod Rename
pub mod InOrder
pub mod Stored
pub mod Content
use longctx.Base.{
  ℕ, zero, suc, ◌+◌, ◌-◌, ◌≤◌, max, String, Bool, true, false, not, ◌&&◌, ◌||◌, Option, none, some,
  List, [], ◌∷◌, ◌++◌, map, leb, ◌==◌, str_eq, if◌then◌else◌, length, select,
}
use longctx.Base.Result.{
  Result, ok, raise, key_error, embedder_mismatch, file_not_found, forbidden_project,
  integrity_error, ◌>>=◌, ◌>>◌, require,
}
use longctx.Chunker
use longctx.Chunker.{Text, Chunker}
use longctx.ChunkStore.{
  ChunkStore, Chunk, FileRecord, Project, contains_str, get_project, upsert_project, get_file,
  upsert_file, get_chunks_by_file, delete_chunks_by_file, upsert_chunks,
}
use longctx.ChunkStore
use longctx.Embed.{MemmapEmbedStore, Numpy, append_batch, free_row}

-- What the indexer asks of the world: sha256 of bytes, UTF-8 in both directions (decoding never
-- fails, as bad bytes are replaced), sha1 of a text for the chunker's ids, and the embedder.
pub record Externals (V : Type 0) : Type 0 where
  pub numpy : Numpy V
  pub sha256 : List ℕ → String
  pub sha1 : Text → String
  pub decode : List ℕ → Text
  pub utf8 : Text → List ℕ
  pub encode : Text → V

pub record Indexer : Type 0 where
  pub chunker : Chunker
  pub tokenizer : Option (Text → Option (List (ℕ × ℕ)))
  pub embedder_model : String
  pub embedder_sha256 : String
  pub forbidden_dirs : List String

pub record Stores (V : Type 0) : Type 0 where
  pub store : ChunkStore
  pub embed : MemmapEmbedStore V

-- A file as the indexer reads it: its bytes (`none` if the read fails), and mtime and size (`none` if
-- the stat fails).
pub record DiskFile : Type 0 where
  pub raw : Option (List ℕ)
  pub stat : Option (ℕ × ℕ)

-- `_line_start_offsets`, behind the offset of the first character of the text that is left.
unfoldable pub line_starts_from : ℕ → Text → List ℕ
line_starts_from at [] = []
line_starts_from at (c ∷ text) =
    let rest = line_starts_from (at + 1) text in if c == 10 then (at + 1) ∷ rest else rest

unfoldable pub line_start_offsets : Text → List ℕ
unfolding line_starts_from
line_start_offsets text = 0 ∷ line_starts_from 0 text

-- `bisect.bisect_right` on a sorted list: how many entries are at most `offset`.
unfoldable pub bisect_right : List ℕ → ℕ → ℕ
bisect_right [] offset = 0
bisect_right (l ∷ ls) offset =
    let rest = bisect_right ls offset in if leb l offset then suc rest else 0

unfoldable pub offset_to_line : List ℕ → ℕ → ℕ
unfolding bisect_right
offset_to_line line_offsets offset = max 1 (bisect_right line_offsets offset)

-- The dictionary `old_by_hash`: a later chunk of the same hash wins.
unfoldable pub old_by_hash : String → List Chunk → Option Chunk
old_by_hash h [] = none
old_by_hash h (c ∷ cs) =
    let later = old_by_hash h cs in
    elim later [ some d ↦ some d | none ↦ if str_eq c.content_hash h then some c else none ]

-- `kept_rows`, for a hash of the new set.
unfoldable pub kept_row : List Chunk → String → Option ℕ
kept_row old h = elim (old_by_hash h old) [ none ↦ none | some c ↦ c.embedding_row ]

-- The old chunks whose hash is not in the new set.
unfoldable pub orphans : List String → List Chunk → List Chunk
orphans new_hashes old = select (λ c. not (contains_str c.content_hash new_hashes)) old

-- The texts of `to_embed_idx`.
unfoldable pub to_embed : List Chunk → List Chunk → List Text
to_embed old [] = []
to_embed old (rec ∷ recs) =
    let rest = to_embed old recs in
    elim (kept_row old rec.content_hash) [ some row ↦ rest | none ↦ rec.text ∷ rest ]

-- The final records: a kept row, or the next of the new ones.
unfoldable pub assign_rows : List Chunk → List Chunk → List ℕ → Result (List Chunk)
assign_rows old [] rows = ok []
assign_rows old (rec ∷ recs) rows = elim (kept_row old rec.content_hash) [
  | some row ↦ do
    final ← assign_rows old recs rows
    ok (record rec { embedding_row = some row } ∷ final)
  | none ↦ elim rows [
    | [] ↦ raise key_error
    | row ∷ rest ↦ do
      final ← assign_rows old recs rest
      ok (record rec { embedding_row = some row } ∷ final)
  ]
]

module _ {V : Type 0} (x : Externals V) where
  abbrev pub chunk_hash : Text → String
  chunk_hash text = x.sha256 (x.utf8 text)

  -- `_build_records`
  unfoldable pub build_records_from : Indexer → ℕ → List ℕ → ℕ → List Chunker.Chunk → List Chunk
  build_records_from self file_id line_offsets idx [] = []
  build_records_from self file_id line_offsets idx (c ∷ cs) =
      record {
        id = 0;
        file_id = file_id;
        chunk_index = idx;
        start_offset = c.start_offset;
        end_offset = c.end_offset;
        start_line = offset_to_line line_offsets c.start_offset;
        end_line = offset_to_line line_offsets (max (c.end_offset - 1) c.start_offset);
        token_count = c.token_count;
        content_hash = chunk_hash c.text;
        text = c.text;
        embedder_model = self.embedder_model;
        embedder_sha256 = self.embedder_sha256;
        embedding_row = none;
      }
      ∷ build_records_from self file_id line_offsets (idx + 1) cs

  -- `if row is not None: free_row(row)`
  unfoldable pub free_chunk : MemmapEmbedStore V → Chunk → Result (MemmapEmbedStore V)
  free_chunk es c = elim c.embedding_row [ none ↦ ok es | some row ↦ free_row x.numpy es row ]

  unfoldable pub free_chunks : MemmapEmbedStore V → List Chunk → Result (MemmapEmbedStore V)
  free_chunks es [] = ok es
  free_chunks es (c ∷ cs) = do es' ← free_chunk es c; free_chunks es' cs

  -- `_index_file` from the chunking on: what it does with the chunks of the new text.
  unfoldable pub replace_chunks :
      Indexer → Stores V → ℕ → Text → List Chunker.Chunk → Result (Stores V × ℕ × ℕ × ℕ)
  unfolding orphans
  replace_chunks self s file_id text [] = do
    es ← free_chunks s.embed (get_chunks_by_file s.store file_id)
    ok (record { store = delete_chunks_by_file s.store file_id; embed = es }, 0, 0, 0)
  replace_chunks self s file_id text (c ∷ cs) = do
    let recs = build_records_from self file_id (line_start_offsets text) 0 (c ∷ cs)
    let new_hashes = map (λ r. r.content_hash) recs
    let old = get_chunks_by_file s.store file_id
    es ← free_chunks s.embed (orphans new_hashes old)
    let texts = to_embed old recs
    (es', rows) ← append_batch x.numpy es (map x.encode texts)
    final ← assign_rows old recs rows
    st ← upsert_chunks (delete_chunks_by_file s.store file_id) final
    ok (record { store = st; embed = es' }, length final, length texts, length final - length texts)

  -- `_index_file` for a file whose content is new: the file record, then the chunks.
  unfoldable pub reindex :
      Indexer → Stores V → String → String → List ℕ → ℕ × ℕ → ℕ → Result (Stores V × ℕ × ℕ × ℕ)
  reindex self s project_name rel raw (mtime, size) existing_id = do
    (st, file_id) ← upsert_file s.store (record {
      id = existing_id;
      project = project_name;
      rel_path = rel;
      mtime = mtime;
      size_bytes = size;
      content_hash = x.sha256 raw;
    })
    chunks ← Chunker.chunk x.sha1 self.chunker self.tokenizer (x.decode raw) 0
    replace_chunks self (record s { store = st }) file_id (x.decode raw) chunks

  abbrev some_counts : Stores V × ℕ × ℕ × ℕ → Stores V × Option (ℕ × ℕ × ℕ)
  some_counts (s, total, new, reused) = (s, some (total, new, reused))

  abbrev reindex_stat :
      Indexer
      → Stores V
      → String
      → String
      → List ℕ
      → Option (ℕ × ℕ)
      → ℕ
      → Result (Stores V × Option (ℕ × ℕ × ℕ))
  reindex_stat self s name rel raw none existing_id = ok (s, none)
  reindex_stat self s name rel raw (some stat) existing_id = do
    r ← reindex self s name rel raw stat existing_id
    ok (some_counts r)

  -- `_index_file`: the counts of chunks in all, new and reused; `none` for a file that cannot be read.
  unfoldable pub index_file :
      Indexer → Stores V → String → String → DiskFile → Result (Stores V × Option (ℕ × ℕ × ℕ))
  index_file self s project_name rel file = elim file.raw [
    | none ↦ ok (s, none)
    | some raw ↦ elim (get_file s.store project_name rel) [
      | none ↦ reindex_stat self s project_name rel raw file.stat 0
      | some existing ↦
          if str_eq existing.content_hash (x.sha256 raw)
          then (let n = length (get_chunks_by_file s.store existing.id) in ok (s, some (n, 0, n)))
          else reindex_stat self s project_name rel raw file.stat existing.id
    ]
  ]

  -- `delete_file` of the indexer.
  unfoldable pub delete_file : Stores V → String → String → Result (Stores V)
  delete_file s project rel_path = elim (get_file s.store project rel_path) [
    | none ↦ ok s
    | some rec ↦ do
      es ← free_chunks s.embed (get_chunks_by_file s.store rec.id)
      ok (record { store = ChunkStore.delete_file s.store rec.id; embed = es })
  ]
