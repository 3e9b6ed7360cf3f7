-- ===== src/Tests/Index.antt =====
-- The indexer, run and reasoned about on two small stores.
use longctx.Base.{
  ℕ, ◌≡◌, ◌≢◌, refl, inl, inr, ◌⊎◌, true, false, none, some, Option, List, [], ◌∷◌, arith, length,
  leb, if◌then◌else◌, In, get_elem?,
}
use mathlib.Core.Path.{subst}
use longctx.Base.Result.{ok}
use longctx.Chunker.{Text}
use longctx.ChunkStore.{
  ChunkStore, Chunk, FileRecord, get_file, get_chunks_by_file, upsert_file, upsert_chunks,
}
use longctx.ChunkStore.Chunks.{Inserted, IsNew, upsert_chunks-Inserted}
use longctx.ChunkStore.Files.{FileUpserted, upsert_file-FileUpserted}
use longctx.Embed.{assert_normalized}
use longctx.Embed.Valid.{live}
use longctx.Embed.Append.{Accepted}
use longctx.Indexer.{Externals, Indexer, Stores, DiskFile, chunk_hash, index_file, delete_file}
use longctx.Indexer.Consistent.{IsConsistent, Updated, FreedAll}
use longctx.Indexer.Remove.{delete_file-Updated}
use longctx.Indexer.Swap.{Reliable}
use longctx.Indexer.Index.{index_file-Updated}
use longctx.Tests.{numpy, used, used-IsValid, digest, digest_injective}
use longctx.Tests.Chunks.{small, small-Fits, sample}

abbrev embed_text : Text → List ℕ
embed_text text = if leb (length text) 5 then 1 ∷ 0 ∷ [] else 0 ∷ 1 ∷ []

abbrev pub externals : Externals (List ℕ)
externals = record {
  numpy = numpy;
  sha256 = digest;
  sha1 = digest;
  decode = λ raw. raw;
  utf8 = λ text. text;
  encode = embed_text;
}

abbrev pub indexer : Indexer
indexer = record {
  chunker = small;
  tokenizer = none;
  embedder_model = "axes";
  embedder_sha256 = "e1";
  forbidden_dirs = "Library" ∷ [];
}

-- "abc"
abbrev old_text : Text
old_text = 97 ∷ 98 ∷ 99 ∷ []

abbrev pub old_chunk : Chunk
old_chunk = record {
  id = 1;
  file_id = 1;
  chunk_index = 0;
  start_offset = 0;
  end_offset = 3;
  start_line = 1;
  end_line = 1;
  token_count = 1;
  content_hash = digest old_text;
  text = old_text;
  embedder_model = "axes";
  embedder_sha256 = "e1";
  embedding_row = some 2;
}

abbrev pub old_file : FileRecord
old_file = record {
  id = 1;
  project = "p";
  rel_path = "a.txt";
  mtime = 5;
  size_bytes = 3;
  content_hash = digest old_text;
}

-- One file with one chunk, in row 2.
abbrev pub store : ChunkStore
store = record {
  projects = record { name = "p"; root_path = "/p"; last_full_scan_at = 0; session_id = none } ∷ [];
  files = old_file ∷ [];
  chunks = old_chunk ∷ [];
  bm25_dirty = false;
}

abbrev pub stores : Stores (List ℕ)
stores = record { store = store; embed = used }

-- The file as it is on disk now.
abbrev pub changed : DiskFile
changed = record { raw = some sample; stat = some (9, 9) }

single : (P : Chunk → Type 0) (c d : Chunk) → P c → In d (c ∷ []) → P d
single P c d p (inl e) = subst P e p
single P c d p (inr m) = absurd m

pub stores-IsConsistent : IsConsistent externals stores
stores-IsConsistent = record {
  valid = used-IsValid;
  live_rows = λ c r m.
      single (λ k. k.embedding_row ≡ some r → live used r ≡ true) old_chunk c (λ e. ground arith) m;
  content = λ c r m.
      single (λ k. k.embedding_row ≡ some r → get_elem? used.rows r ≡ some (embed_text k.text))
        old_chunk c (λ e. ground arith) m;
  hashed = λ c m. single (λ k. k.content_hash ≡ chunk_hash externals k.text) old_chunk c refl m;
  shared = λ c d r m m' e e'.
      single (λ k. (k.file_id ≡ d.file_id) × (k.content_hash ≡ d.content_hash)) old_chunk c
        (single (λ k. (1 ≡ k.file_id) × (digest old_text ≡ k.content_hash)) old_chunk d (refl, refl)
          m')
        m;
}

embed_text-Accepted : (text : Text) → Accepted numpy used (embed_text text)
unfolding assert_normalized
embed_text-Accepted text = record { width = ground arith; norm = ground arith }

pub stores-Reliable : Reliable externals stores
stores-Reliable = record { accepted = embed_text-Accepted; collision_free = digest_injective }

index_file-Updated_example :
    (s' : Stores (List ℕ)) × (counts : Option (ℕ × ℕ × ℕ)) × (index_file externals indexer stores
        "p" "a.txt" changed
      ≡ ok (s', counts))
    × Updated externals stores s'
index_file-Updated_example =
    index_file-Updated externals indexer stores "p" "a.txt" changed stores-IsConsistent
      stores-Reliable refl small-Fits refl

delete_file-Updated_example :
    (s' : Stores (List ℕ)) × (delete_file externals stores "p" "a.txt" ≡ ok s')
    × Updated externals stores s'
    × ((get_file store "p" "a.txt" ≡ none) × (s' ≡ stores)
        ⊎ (rec : FileRecord) × (get_file store "p" "a.txt" ≡ some rec)
          × FreedAll used s'.embed (get_chunks_by_file store rec.id)
          × ((c : Chunk) → In c s'.store.chunks → c.file_id ≢ rec.id))
delete_file-Updated_example = delete_file-Updated externals stores stores-IsConsistent "p" "a.txt"

abbrev new_chunk : Chunk
new_chunk = record old_chunk { id = 0; chunk_index = 1; embedding_row = some 1 }

upsert_chunks-Inserted_example :
    (st : ChunkStore) × (upsert_chunks store (new_chunk ∷ []) ≡ ok st)
    × Inserted store st (new_chunk ∷ [])
upsert_chunks-Inserted_example =
    upsert_chunks-Inserted store (new_chunk ∷ [])
      (λ c m. single (IsNew store) new_chunk c (record { unassigned = refl; of_file = refl }) m)

abbrev second_file : FileRecord
second_file = record old_file { id = 0; rel_path = "b.txt" }

upsert_file-FileUpserted_example :
    (st : ChunkStore) × (file_id : ℕ) × (upsert_file store second_file ≡ ok (st, file_id))
    × FileUpserted store st second_file file_id
upsert_file-FileUpserted_example = upsert_file-FileUpserted store second_file refl (inl refl)
