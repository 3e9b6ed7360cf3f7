-- ===== src/Indexer/Again.antt =====
-- indexer.py: `_index_file`, run a second time on the same bytes.
use longctx.Base.{ℕ, ◌≡◌, ap, ◌∙◌, sym, String, some, List, [], ◌∷◌, map, length, ◌==◌, select}
use longctx.Base.Result.{ok, >>=-eq-ok, ok_injective}
use longctx.Chunker
use longctx.Chunker.{Text}
use longctx.ChunkStore.{
  ChunkStore, Chunk, FileRecord, get_file, get_chunks_by_file, delete_chunks_by_file, upsert_chunks,
}
use longctx.ChunkStore.Lookup.{upsert_chunks-files}
use longctx.Embed.{append_batch}
use longctx.Indexer.{
  Externals, Indexer, Stores, DiskFile, replace_chunks, index_file, free_chunks, assign_rows,
  build_records_from, line_start_offsets, orphans, to_embed,
}

-- How many chunks of the table are of the file.
abbrev pub count_of : ℕ → List Chunk → ℕ
count_of file_id cs = length (select (λ c. c.file_id == file_id) cs)

module _ {V : Type 0} (x : Externals V) (self : Indexer) where
  pub replace_chunks-files :
      (s s' : Stores V) (file_id : ℕ) (text : Text) (raw : List Chunker.Chunk) (n : ℕ × ℕ × ℕ)
      → replace_chunks x self s file_id text raw ≡ ok (s', n.0, n.1, n.2)
      → s'.store.files ≡ s.store.files
  unfolding replace_chunks delete_chunks_by_file
  replace_chunks-files s s' file_id text [] n run =
      let (es, freeing, done) =
        >>=-eq-ok (free_chunks x s.embed (get_chunks_by_file s.store file_id)) _ run in
      ap (λ p. p.0.store.files) (sym (ok_injective _ _ done))
  replace_chunks-files s s' file_id text (c ∷ cs) n run =
      let recs = build_records_from x self file_id (line_start_offsets text) 0 (c ∷ cs) in
      let old = get_chunks_by_file s.store file_id in
      let (es, freeing, run1) =
        >>=-eq-ok (free_chunks x s.embed (orphans (map (λ r. r.content_hash) recs) old)) _ run in
      let ((es', rows), appending, run2) =
        >>=-eq-ok (append_batch x.numpy es (map x.encode (to_embed old recs))) _ run1 in
      let (final, assigning, run3) = >>=-eq-ok (assign_rows old recs rows) _ run2 in
      let (st, storing, done) =
        >>=-eq-ok (upsert_chunks (delete_chunks_by_file s.store file_id) final) _ run3 in
      ap (λ p. p.0.store.files) (sym (ok_injective _ _ done))
      ∙ upsert_chunks-files (delete_chunks_by_file s.store file_id) st final storing

  -- The table has the file, with the hash of the bytes.
  abbrev IsRecorded : Stores V → String → String → List ℕ → Type 0
  IsRecorded s name rel raw =
      (rec : FileRecord) × (get_file s.store name rel ≡ some rec)
      × (rec.content_hash ≡ x.sha256 raw)

  -- The table has the file, and a run leaves the stores as they are, with the number of the chunks of
  -- the table that are of this file as the total and as the reused ones.
  abbrev pub IsNoOp : Stores V → String → String → DiskFile → Type 0
  IsNoOp s name rel file =
      (rec : FileRecord) × (get_file s.store name rel ≡ some rec)
      × (index_file x self s name rel file
          ≡ ok (s, some (count_of rec.id s.store.chunks, 0, count_of rec.id s.store.chunks)))
