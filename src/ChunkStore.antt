-- ===== src/ChunkStore.antt =====
-- longctx_daemon/types.py and longctx_daemon/storage/sqlite_store.py: projects, files and chunks.
-- A table is the list of its rows. A primary key that is left to SQLite is one more than the largest.
-- Ids and offsets are natural numbers, and an id of 0 is one that the store assigns. The lexical
-- index is not modelled, but its dirty flag is.
pub mod Files
pub mod Chunks
pub mod Lookup
pub mod Queries
pub mod Batches
pub mod Keys
pub mod Scopes
use longctx.Base.{
  ℕ, zero, suc, ◌+◌, max, String, Bool, true, false, not, ◌&&◌, ◌||◌, Option, none, some, List, [],
  ◌∷◌, ◌++◌, map, ◌==◌, str_eq, if◌then◌else◌, length, select, find, any, order_by, order_with,
  contains, str_leb,
}
use longctx.Base.Result.{Result, ok, raise, integrity_error, ◌>>=◌, ◌>>◌, require}
use longctx.Chunker.{Text}

pub record Project : Type 0 where
  pub name : String
  pub root_path : String
  pub last_full_scan_at : ℕ
  pub session_id : Option String

pub record FileRecord : Type 0 where
  pub id : ℕ
  pub project : String
  pub rel_path : String
  pub mtime : ℕ
  pub size_bytes : ℕ
  pub content_hash : String

pub record Chunk : Type 0 where
  pub id : ℕ
  pub file_id : ℕ
  pub chunk_index : ℕ
  pub start_offset : ℕ
  pub end_offset : ℕ
  pub start_line : ℕ
  pub end_line : ℕ
  pub token_count : ℕ
  pub content_hash : String
  pub text : Text
  pub embedder_model : String
  pub embedder_sha256 : String
  pub embedding_row : Option ℕ

pub record ScopeFilter : Type 0 where
  pub project : Option String
  pub project_in : Option (List String)

pub record ChunkStore : Type 0 where
  pub projects : List Project
  pub files : List FileRecord
  pub chunks : List Chunk
  pub bm25_dirty : Bool

-- The id that SQLite gives to a new row.
unfoldable pub next_id : List ℕ → ℕ
next_id [] = 1
next_id (i ∷ ids) = max (i + 1) (next_id ids)

abbrev pub contains_str : String → List String → Bool
contains_str s [] = false
contains_str s (t ∷ ts) = str_eq t s || contains_str s ts

-- Projects -----------------------------------------------------------------

unfoldable pub get_project : ChunkStore → String → Option Project
get_project st name = find (λ p. str_eq p.name name) st.projects

-- `root_path` is unique over the other projects.
unfoldable pub upsert_project : ChunkStore → Project → Result ChunkStore
upsert_project st project = do
  require
      (not (
        any (λ p. not (str_eq p.name project.name) && str_eq p.root_path project.root_path)
          st.projects))
      integrity_error
  ok (
      if any (λ p. str_eq p.name project.name) st.projects
      then record st {
        projects = map (λ p. if str_eq p.name project.name then project else p) st.projects;
      }
      else record st { projects = st.projects ++ project ∷ [] })

unfoldable pub list_projects : ChunkStore → List Project
list_projects st = order_with (λ p q. str_leb p.name q.name) st.projects

-- The ids of the files of a project.
unfoldable pub file_ids : ChunkStore → String → List ℕ
file_ids st name = map (λ f. f.id) (select (λ f. str_eq f.project name) st.files)

-- The foreign keys delete the project's files, and their chunks.
unfoldable pub delete_project : ChunkStore → String → ChunkStore
unfolding file_ids
delete_project st name =
    let gone = file_ids st name in
    record st {
      projects = select (λ p. not (str_eq p.name name)) st.projects;
      files = select (λ f. not (str_eq f.project name)) st.files;
      chunks = select (λ c. not (contains c.file_id gone)) st.chunks;
      bm25_dirty = true;
    }

-- Files --------------------------------------------------------------------

abbrev pub same_file : String → String → FileRecord → Bool
same_file project rel_path f = str_eq f.project project && str_eq f.rel_path rel_path

unfoldable pub get_file : ChunkStore → String → String → Option FileRecord
get_file st project rel_path = find (same_file project rel_path) st.files

unfoldable pub get_file_by_id : ChunkStore → ℕ → Option FileRecord
get_file_by_id st file_id = find (λ f. f.id == file_id) st.files

-- `list_files` of a project.
unfoldable pub list_files : ChunkStore → String → List FileRecord
list_files st project =
    order_with (λ f g. str_leb f.rel_path g.rel_path)
      (select (λ f. str_eq f.project project) st.files)

-- `ON CONFLICT(project, rel_path) DO UPDATE`: the other columns are set, the id stays.
abbrev pub update_file_row : FileRecord → FileRecord → FileRecord
update_file_row file f =
    if same_file file.project file.rel_path f
    then record f {
      mtime = file.mtime;
      size_bytes = file.size_bytes;
      content_hash = file.content_hash;
    }
    else f

unfoldable pub upsert_file : ChunkStore → FileRecord → Result (ChunkStore × ℕ)
upsert_file st file = elim (find (same_file file.project file.rel_path) st.files) [
  | some f ↦ ok (record st { files = map (update_file_row file) st.files }, f.id)
  | none ↦ do
    require (any (λ p. str_eq p.name file.project) st.projects) integrity_error
    require (file.id == 0 || not (any (λ f. f.id == file.id) st.files)) integrity_error
    let id : ℕ = if file.id == 0 then next_id (map (λ f. f.id) st.files) else file.id
    ok (record st { files = st.files ++ record file { id = id } ∷ [] }, id)
]

unfoldable pub delete_file : ChunkStore → ℕ → ChunkStore
delete_file st file_id = record st {
  files = select (λ f. not (f.id == file_id)) st.files;
  chunks = select (λ c. not (c.file_id == file_id)) st.chunks;
  bm25_dirty = true;
}

-- `UPDATE files`, refused if another file of the project has the new path.
unfoldable pub rename_file : ChunkStore → ℕ → String → ℕ → Result ChunkStore
rename_file st file_id new_rel_path mtime = elim (find (λ f. f.id == file_id) st.files) [
  | none ↦ ok st
  | some old ↦ do
    require
        (not (any (λ f. not (f.id == file_id) && same_file old.project new_rel_path f) st.files))
        integrity_error
    ok (record st {
      files =
          map
            (λ f.
              if f.id == file_id then record f { rel_path = new_rel_path; mtime = mtime } else f)
            st.files;
    })
]

-- Chunks -------------------------------------------------------------------

-- One row of `upsert_chunks`.
unfoldable pub upsert_chunk : ChunkStore → Chunk → Result ChunkStore
upsert_chunk st c = do
  require (any (λ f. f.id == c.file_id) st.files) integrity_error
  ok (
      if c.id == 0
      then record st {
        chunks = st.chunks ++ record c { id = next_id (map (λ d. d.id) st.chunks) } ∷ [];
      }
      else if any (λ d. d.id == c.id) st.chunks
      then record st { chunks = map (λ d. if d.id == c.id then c else d) st.chunks }
      else record st { chunks = st.chunks ++ c ∷ [] })

unfoldable pub upsert_rows : ChunkStore → List Chunk → Result ChunkStore
upsert_rows st [] = ok st
upsert_rows st (c ∷ cs) = do st' ← upsert_chunk st c; upsert_rows st' cs

unfoldable pub upsert_chunks : ChunkStore → List Chunk → Result ChunkStore
upsert_chunks st [] = ok st
upsert_chunks st (c ∷ cs) = do st' ← upsert_rows st (c ∷ cs); ok (record st' { bm25_dirty = true })

unfoldable pub get_chunks_by_file : ChunkStore → ℕ → List Chunk
get_chunks_by_file st file_id =
    order_by (λ c. c.chunk_index) (select (λ c. c.file_id == file_id) st.chunks)

unfoldable pub delete_chunks_by_file : ChunkStore → ℕ → ChunkStore
delete_chunks_by_file st file_id = record st {
  chunks = select (λ c. not (c.file_id == file_id)) st.chunks;
  bm25_dirty = true;
}
