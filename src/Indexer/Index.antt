-- ===== src/Indexer/Index.antt =====
-- indexer.py: `_index_file` on consistent stores.
use longctx.Base.{
  ℕ, ◌≡◌, refl, ap, ◌∙◌, String, true, Option, none, some, inl, inr, ◌⊎◌, Bool-cases, Option-cases,
  List, length, str_eq, any,
}
use longctx.Base.Result.{ok}
use longctx.Chunker
use longctx.Chunker.{Text}
use longctx.Chunker.Sentence.{Fits}
use longctx.Chunker.Window.{chunk-Covers}
use longctx.ChunkStore.{FileRecord, get_file, get_chunks_by_file}
use longctx.ChunkStore.Files.{upsert_file-FileUpserted}
use longctx.Indexer.{Externals, Stores, Indexer, DiskFile, reindex, reindex_stat, index_file}
use longctx.Indexer.Consistent.{IsConsistent, Updated, Updated-refl}
use longctx.Indexer.Swap.{Reliable, same_chunks-IsConsistent, replace_chunks-Updated}

module _ {V : Type 0} (x : Externals V) where
  -- A file whose content is new.
  reindex-Updated :
      (self : Indexer) (s : Stores V) (name rel : String) (raw : List ℕ) (stat : ℕ × ℕ) (id : ℕ)
      → IsConsistent x s
      → Reliable x s
      → self.tokenizer ≡ none
      → Fits self.chunker
      → any (λ p. str_eq p.name name) s.store.projects ≡ true
      → (id ≡ 0) ⊎ (existing : FileRecord) × (get_file s.store name rel ≡ some existing)
      → (s' : Stores V) × (counts : ℕ × ℕ × ℕ) × (reindex x self s name rel raw stat id
          ≡ ok (s', counts.0, counts.1, counts.2))
        × Updated x s s'
  unfolding reindex
  reindex-Updated self s name rel raw (mtime, size) id h k plain fits known given =
      let (st, file_id, upserting, up) =
        upsert_file-FileUpserted s.store
          (record {
            id = id;
            project = name;
            rel_path = rel;
            mtime = mtime;
            size_bytes = size;
            content_hash = x.sha256 raw;
          })
          known given in
      let (chunks, chunking, covers) = chunk-Covers x.sha1 self.chunker (x.decode raw) 0 fits in
      let chunking' =
        ap (λ tok. Chunker.chunk x.sha1 self.chunker tok (x.decode raw) 0) plain ∙ chunking in
      let s1 = record s { store = st } in
      let (s', counts, replacing, updated) =
        replace_chunks-Updated x self s1 file_id (x.decode raw) chunks
          (same_chunks-IsConsistent x s st up.chunks_kept h)
          (record { accepted = k.accepted; collision_free = k.collision_free }) up.there in
      (
        s',
        counts,
        rw (upserting, chunking', replacing) refl,
        record {
          consistent = updated.consistent;
          projects_kept = updated.projects_kept ∙ up.projects_kept;
          dim_kept = updated.dim_kept;
          validate_kept = updated.validate_kept;
        },
      )

  reindex_stat-Updated :
      (self : Indexer) (s : Stores V) (name rel : String) (raw : List ℕ) (stat : Option (ℕ × ℕ))
      (id : ℕ)
      → IsConsistent x s
      → Reliable x s
      → self.tokenizer ≡ none
      → Fits self.chunker
      → any (λ p. str_eq p.name name) s.store.projects ≡ true
      → (id ≡ 0) ⊎ (existing : FileRecord) × (get_file s.store name rel ≡ some existing)
      → (s' : Stores V) × (counts : Option (ℕ × ℕ × ℕ)) × (reindex_stat x self s name rel raw stat
            id
          ≡ ok (s', counts))
        × Updated x s s'
  reindex_stat-Updated self s name rel raw none id h k plain fits known given =
      (s, none, refl, Updated-refl x s h)
  reindex_stat-Updated self s name rel raw (some stat) id h k plain fits known given =
      let (s', counts, run, updated) =
        reindex-Updated self s name rel raw stat id h k plain fits known given in
      (s', some counts, rw run refl, updated)

  -- Indexing a file of a known project succeeds on consistent stores, whatever the file holds and
  -- whether or not it can be read, and leaves consistent stores: every row that a chunk names is live
  -- and holds the embedding of the chunk's text, and no row is shared by chunks of different files or
  -- different hashes. Projects, and width and mode of the embedding store, stay. The conditions: the
  -- embedder and the hash are reliable, there is no tokenizer, and overlap and slack fit in a chunk.
  pub index_file-Updated :
      (self : Indexer) (s : Stores V) (name rel : String) (file : DiskFile)
      → IsConsistent x s
      → Reliable x s
      → self.tokenizer ≡ none
      → Fits self.chunker
      → any (λ p. str_eq p.name name) s.store.projects ≡ true
      → (s' : Stores V) × (counts : Option (ℕ × ℕ × ℕ)) × (index_file x self s name rel file
          ≡ ok (s', counts))
        × Updated x s s'
  unfolding index_file
  index_file-Updated self s name rel file h k plain fits known = elim (Option-cases file.raw) [
    | inl unread ↦ (s, none, rw (unread, index_file) refl, Updated-refl x s h)
    | inr (raw, read) ↦ elim (Option-cases (get_file s.store name rel)) [
      | inl new ↦
          let (s', counts, run, updated) =
            reindex_stat-Updated self s name rel raw file.stat 0 h k plain fits known (inl refl) in
          (s', counts, rw (read, index_file) (rw (new, index_file) run), updated)
      | inr (existing, found) ↦ elim (Bool-cases (str_eq existing.content_hash (x.sha256 raw))) [
        | inl same ↦
            let n = length (get_chunks_by_file s.store existing.id) in
            (
              s,
              some (n, 0, n),
              rw (read, index_file) (rw (found, index_file) (rw same refl)),
              Updated-refl x s h,
            )
        | inr changed ↦
            let (s', counts, run, updated) =
              reindex_stat-Updated self s name rel raw file.stat existing.id h k plain fits known
                (inr (existing, found)) in
            (s', counts, rw (read, index_file) (rw (found, index_file) (rw changed run)), updated)
      ]
    ]
  ]
