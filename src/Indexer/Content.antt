-- ===== src/Indexer/Content.antt =====
-- indexer.py: the stores after a file was indexed anew.
use longctx.Base.{
  ℕ, ◌≡◌, ◌≢◌, ap, ◌∙◌, String, Option, none, some, inl, inr, Bool-cases, Option-cases, List, map,
  arith, str_eq, eq_iff,
}
use mathlib.Core.Path.{subst}
use longctx.Base.Result.{ok, >>=-eq-ok, ok_injective}
use longctx.Chunker
use longctx.ChunkStore.{FileRecord, get_file, get_chunks_by_file, upsert_file}
use longctx.ChunkStore.Lookup.{get_file-upsert_file}
use longctx.Indexer.{
  Externals, Indexer, Stores, DiskFile, reindex, reindex_stat, some_counts, index_file,
}
use longctx.Indexer.Again.{replace_chunks-files}
use longctx.Indexer.InOrder.{extent, raw_extent}
use longctx.Indexer.Stored.{replace_chunks-extents}

module _ {V : Type 0} (x : Externals V) (self : Indexer) where
  -- The file is on record with the hash of the bytes, and its chunks are those that the chunker makes
  -- of the decoded text: the same offsets and texts, in the same order.
  pub record HasContent (s : Stores V) (name rel : String) (raw : List ℕ) : Type 0 where
    pub rec : FileRecord
    pub chunks : List Chunker.Chunk
    pub found : get_file s.store name rel ≡ some rec
    pub hash : rec.content_hash ≡ x.sha256 raw
    pub chunking : Chunker.chunk x.sha1 self.chunker self.tokenizer (x.decode raw) 0 ≡ ok chunks
    pub stored : map extent (get_chunks_by_file s.store rec.id) ≡ map raw_extent chunks

  reindex-HasContent :
      (s s' : Stores V) (name rel : String) (raw : List ℕ) (stat : ℕ × ℕ) (id : ℕ) (n : ℕ × ℕ × ℕ)
      → reindex x self s name rel raw stat id ≡ ok (s', n.0, n.1, n.2)
      → HasContent s' name rel raw
  unfolding reindex get_file
  reindex-HasContent s s' name rel raw (mtime, size) id n run =
      let file : FileRecord = record {
        id = id;
        project = name;
        rel_path = rel;
        mtime = mtime;
        size_bytes = size;
        content_hash = x.sha256 raw;
      } in
      let ((st, file_id), upserting, run1) = >>=-eq-ok (upsert_file s.store file) _ run in
      let (chunks, chunking, run2) =
        >>=-eq-ok (Chunker.chunk x.sha1 self.chunker self.tokenizer (x.decode raw) 0) _ run1 in
      let (rec, found, same_id, hash) = get_file-upsert_file file s.store st file_id upserting in
      let s1 = record s { store = st } in
      let files = replace_chunks-files x self s1 s' file_id (x.decode raw) chunks n run2 in
      record {
        rec = rec;
        chunks = chunks;
        found = rw files found;
        hash = hash;
        chunking = chunking;
        stored =
            ap (λ i. map extent (get_chunks_by_file s'.store i)) same_id
            ∙ replace_chunks-extents x self s1 s' file_id (x.decode raw) chunks n run2;
      }

  reindex_stat-HasContent :
      (s s' : Stores V) (name rel : String) (raw : List ℕ) (stat : Option (ℕ × ℕ)) (id : ℕ)
      (n : ℕ × ℕ × ℕ)
      → reindex_stat x self s name rel raw stat id ≡ ok (s', some n)
      → HasContent s' name rel raw
  reindex_stat-HasContent s s' name rel raw none id n run =
      absurd (ground (arith, ok_injective (s, none) (s', some n) run))
  reindex_stat-HasContent s s' name rel raw (some stat) id n run =
      let (r, first, done) = >>=-eq-ok (reindex x self s name rel raw stat id) _ run in
      let same : r.0 ≡ s' = ap (λ p. p.0) (ok_injective (some_counts x r) (s', some n) done) in
      subst (λ k. HasContent k name rel raw) same
        (reindex-HasContent s r.0 name rel raw stat id (r.1, r.2, r.3) first)

  -- Where `index_file` returns counts for bytes whose hash is not on record, from whatever stores, the
  -- file is on record with the hash of the bytes afterwards, and its chunks are those that the chunker
  -- makes of the decoded text: the same offsets and texts, in the same order.
  pub index_file-HasContent :
      (s s' : Stores V) (name rel : String) (file : DiskFile) (raw : List ℕ) (n : ℕ × ℕ × ℕ)
      → file.raw ≡ some raw
      → ((rec : FileRecord)
          → get_file s.store name rel ≡ some rec
          → rec.content_hash ≢ x.sha256 raw)
      → index_file x self s name rel file ≡ ok (s', some n)
      → HasContent s' name rel raw
  unfolding index_file
  index_file-HasContent s s' name rel file raw n read changed run =
      elim (Option-cases (get_file s.store name rel)) [
        | inl new ↦
            reindex_stat-HasContent s s' name rel raw file.stat 0 n
              (rw (new, index_file) at (rw (read, index_file) at run))
        | inr (existing, found) ↦
            let run' = rw (found, index_file) at (rw (read, index_file) at run) in
            elim (Bool-cases (str_eq existing.content_hash (x.sha256 raw))) [
              | inl same ↦
                  absurd
                    (changed existing found ((eq_iff existing.content_hash (x.sha256 raw)).0 same))
              | inr differs ↦
                  reindex_stat-HasContent s s' name rel raw file.stat existing.id n
                    (rw differs at run')
            ]
      ]
