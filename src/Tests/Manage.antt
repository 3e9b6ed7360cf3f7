-- ===== src/Tests/Manage.antt =====
-- Scans, renames and deletions on the stores of the other tests.
use longctx.Base.{
  arith, length, ap, ◌∙◌, ℕ, ◌≡◌, ◌≢◌, refl, Bool, true, false, none, some, List, [], ◌∷◌, In,
}
use longctx.Base.Result.{ok, raise, key_error}
use longctx.Chunker.{
  is_space, is_stop, last_match_end, walk_to_sentence_end, chunk_end, stable_id, make_chunk,
  char_proxy_loop, chunk_char_proxy, chunk,
}
use longctx.ChunkStore.{
  Chunk, FileRecord, Project, get_project, get_file, get_chunks_by_file, list_files, next_id,
  upsert_file, delete_chunks_by_file, upsert_chunk, upsert_rows, upsert_chunks, list_projects,
}
use longctx.ChunkStore.Lookup.{get_file-upsert_file}
use longctx.Embed.{
  EmbedIndex, write_row, write_rows, save_index, assert_normalized, assert_all_normalized,
  all_widths, fill_free, extend_tail, append_batch, free_row,
}
use longctx.Indexer.{
  Stores, DiskFile, line_starts_from, line_start_offsets, bisect_right, offset_to_line, old_by_hash,
  kept_row, orphans, to_embed, assign_rows, build_records_from, free_chunk, free_chunks,
  replace_chunks, reindex, index_file,
}
use longctx.Indexer.Consistent.{IsConsistent, FreedAll}
use longctx.Indexer.Manage.{
  Candidate, Counts, assert_embedder_consistent, first_sha, first_sha_of_files, full_scan,
  update_file, delete_project, rename_file,
}
use longctx.Indexer.Scan.{seen, full_scan-IsConsistent}
use longctx.Indexer.Drop.{IsFileOf, chunks_of, delete_project-IsConsistent}
use longctx.Indexer.Content.{HasContent, index_file-HasContent}
use longctx.Indexer.Again.{count_of}
use longctx.Indexer.Rename.{rename_file-IsConsistent}
use longctx.Tests.{used, digest, digest_injective}
use longctx.Tests.Chunks.{small-Fits, sample}
use longctx.Tests.Index.{
  externals, indexer, old_chunk, old_file, store, stores, changed, stores-IsConsistent,
  stores-Reliable,
}

abbrev unreadable : DiskFile
unreadable = record { raw = none; stat = none }

-- What a walk finds: the file that is known, one that cannot be read, and one that is refused.
abbrev found : List Candidate
found =
    record { rel = "a.txt"; passes = true; file = changed }
    ∷ record { rel = "b.txt"; passes = true; file = unreadable }
    ∷ record { rel = "c.bin"; passes = false; file = changed }
    ∷ []

abbrev project : Project
project = record { name = "p"; root_path = "/p"; last_full_scan_at = 0; session_id = none }

same_embedder : assert_embedder_consistent indexer store ≡ ok tt
unfolding assert_embedder_consistent first_sha first_sha_of_files list_projects list_files
    get_chunks_by_file
same_embedder = refl

known_project : get_project store "p" ≡ some project
unfolding get_project
known_project = refl

full_scan-IsConsistent_example :
    (s' : Stores (List ℕ)) × (n : Counts) × (full_scan externals indexer stores "p" 77
        (λ root. found)
      ≡ ok (s', n))
    × IsConsistent externals s'
    × (seen n ≡ 3)
full_scan-IsConsistent_example =
    full_scan-IsConsistent externals indexer refl small-Fits stores "p" 77 (λ root. found) project
      stores-IsConsistent stores-Reliable same_embedder known_project refl

rename_file-IsConsistent_example :
    (s' : Stores (List ℕ)) × (cheap : Bool) × (rename_file externals indexer stores "p" "a.txt"
        "b.txt" true changed
      ≡ ok (s', cheap))
    × IsConsistent externals s'
rename_file-IsConsistent_example =
    rename_file-IsConsistent externals indexer refl small-Fits stores "p" "a.txt" "b.txt" true
      changed stores-IsConsistent stores-Reliable

delete_project-IsConsistent_example :
    (s' : Stores (List ℕ)) × (delete_project externals stores "p" ≡ ok s')
    × IsConsistent externals s'
    × FreedAll used s'.embed (chunks_of store (list_files store "p"))
    × ((c : Chunk)
        → In c s'.store.chunks
        → In c store.chunks × ((f : FileRecord) → IsFileOf store "p" f → c.file_id ≢ f.id))
    × ((c : Chunk)
        → In c store.chunks
        → ((f : FileRecord) → IsFileOf store "p" f → c.file_id ≢ f.id)
        → In c s'.store.chunks)
delete_project-IsConsistent_example =
    delete_project-IsConsistent externals stores "p" stores-IsConsistent

-- The chunks of the changed file: "abc. " in the row that the old chunk left, and ". defg" in row 0.
abbrev first_chunk : Chunk
first_chunk = record old_chunk {
  end_offset = 5;
  token_count = 2;
  content_hash = digest (97 ∷ 98 ∷ 99 ∷ 46 ∷ 32 ∷ []);
  text = 97 ∷ 98 ∷ 99 ∷ 46 ∷ 32 ∷ [];
  embedding_row = some 2;
}

abbrev second_chunk : Chunk
second_chunk = record old_chunk {
  id = 2;
  chunk_index = 1;
  start_offset = 3;
  end_offset = 9;
  token_count = 3;
  content_hash = digest (46 ∷ 32 ∷ 100 ∷ 101 ∷ 102 ∷ 103 ∷ []);
  text = 46 ∷ 32 ∷ 100 ∷ 101 ∷ 102 ∷ 103 ∷ [];
  embedding_row = some 0;
}

abbrev full : EmbedIndex
full = record (used.state) { freelist = [] }

abbrev after : Stores (List ℕ)
after = record {
  store = record store {
    files = record old_file { mtime = 9; size_bytes = 9; content_hash = digest sample } ∷ [];
    chunks = first_chunk ∷ second_chunk ∷ [];
    bm25_dirty = true;
  };
  embed = record used {
    rows = (0 ∷ 1 ∷ []) ∷ (0 ∷ 1 ∷ []) ∷ (1 ∷ 0 ∷ []) ∷ (0 ∷ 0 ∷ []) ∷ [];
    state = full;
    idx_file = full;
  };
}

changed_run : index_file externals indexer stores "p" "a.txt" changed ≡ ok (after, some (2, 2, 0))
unfolding is_space is_stop last_match_end walk_to_sentence_end chunk_end stable_id make_chunk
    char_proxy_loop chunk_char_proxy chunk get_file get_chunks_by_file next_id upsert_file
    delete_chunks_by_file upsert_chunk upsert_rows upsert_chunks write_row write_rows save_index
    assert_normalized assert_all_normalized all_widths fill_free extend_tail append_batch free_row
    line_starts_from line_start_offsets bisect_right offset_to_line old_by_hash kept_row orphans
    to_embed assign_rows build_records_from free_chunk free_chunks replace_chunks reindex index_file
changed_run = refl

-- The two chunks of the file are counted.
count_of_run : count_of 1 after.store.chunks ≡ 2
count_of_run = refl

changed_hash :
    (rec : FileRecord) → get_file store "p" "a.txt" ≡ some rec → rec.content_hash ≢ digest sample
unfolding get_file
changed_hash rec found e =
    let same : old_file.content_hash ≡ rec.content_hash = ground (arith, found) in
    let texts = digest_injective (97 ∷ 98 ∷ 99 ∷ []) sample (same ∙ e) in
    absurd (omega (arith, ap length texts))

index_file-HasContent_example : HasContent externals indexer after "p" "a.txt" sample
index_file-HasContent_example =
    index_file-HasContent externals indexer stores after "p" "a.txt" changed sample (2, 2, 0) refl
      changed_hash changed_run

abbrev moved_file : FileRecord
moved_file = record old_file { mtime = 8; content_hash = "n1" }

upserted_run : upsert_file store moved_file ≡ ok (record store { files = moved_file ∷ [] }, 1)
unfolding upsert_file
upserted_run = refl

get_file-upsert_file_example :
    (rec : FileRecord) × (get_file (record store { files = moved_file ∷ [] }) "p" "a.txt"
      ≡ some rec)
    × (rec.id ≡ 1)
    × (rec.content_hash ≡ "n1")
get_file-upsert_file_example =
    get_file-upsert_file moved_file store (record store { files = moved_file ∷ [] }) 1 upserted_run

unknown_project :
    update_file externals indexer
      (record stores { store = record store { chunks = [] } })
      "q"
      (record { rel = "a.txt"; passes = true; file = changed })
    ≡ raise key_error
unfolding update_file assert_embedder_consistent first_sha first_sha_of_files list_projects
    list_files get_chunks_by_file get_project
unknown_project = refl
