-- ===== src/Indexer/Consistent.antt =====
-- What the two stores have to do with one another, and the freeing of the rows of chunks.
use longctx.Base.{
  ℕ, ◌<◌, ◌≡◌, refl, ◌∙◌, Bool, true, false, not, ◌&&◌, none, some, inl, inr, Option-cases, List,
  [], ◌∷◌, arith, ◌==◌, get_elem?, In, any,
}
use longctx.Base.Result.{ok}
use longctx.ChunkStore.{Chunk}
use longctx.Embed.{MemmapEmbedStore}
use longctx.Embed.Valid.{IsValid, live}
use longctx.Embed.Free.{Freed, free_row-Freed}
use longctx.Indexer.{Externals, Stores, chunk_hash, free_chunk, free_chunks}

module _ {V : Type 0} (x : Externals V) where
  -- Every row that a chunk names is live and holds the embedding of the chunk's text; the hash is
  -- that of the text; and chunks of one row are of one file and one hash.
  pub record IsConsistent (s : Stores V) : Type 0 where
    pub valid : IsValid s.embed
    pub live_rows :
        (c : Chunk) (r : ℕ) → In c s.store.chunks → c.embedding_row ≡ some r → live s.embed r ≡ true
    pub content :
        (c : Chunk) (r : ℕ)
        → In c s.store.chunks
        → c.embedding_row ≡ some r
        → get_elem? s.embed.rows r ≡ some (x.numpy.as_float32 (x.encode c.text))
    pub hashed : (c : Chunk) → In c s.store.chunks → c.content_hash ≡ chunk_hash x c.text
    pub shared :
        (c d : Chunk) (r : ℕ)
        → In c s.store.chunks
        → In d s.store.chunks
        → c.embedding_row ≡ some r
        → d.embedding_row ≡ some r
        → (c.file_id ≡ d.file_id) × (c.content_hash ≡ d.content_hash)

  -- What an operation that succeeds leaves: consistent stores, the projects, and the settings of the
  -- embedding store.
  pub record Updated (s s' : Stores V) : Type 0 where
    pub consistent : IsConsistent s'
    pub projects_kept : s'.store.projects ≡ s.store.projects
    pub dim_kept : s'.embed.dim ≡ s.embed.dim
    pub validate_kept : s'.embed.validate ≡ s.embed.validate

  pub Updated-refl : (s : Stores V) → IsConsistent s → Updated s s
  Updated-refl s h = record {
    consistent = h;
    projects_kept = refl;
    dim_kept = refl;
    validate_kept = refl;
  }

  pub Updated-trans : {s t u : Stores V} → Updated s t → Updated t u → Updated s u
  Updated-trans a b = record {
    consistent = b.consistent;
    projects_kept = b.projects_kept ∙ a.projects_kept;
    dim_kept = b.dim_kept ∙ a.dim_kept;
    validate_kept = b.validate_kept ∙ a.validate_kept;
  }

abbrev pub has_row : ℕ → Chunk → Bool
has_row r c = elim c.embedding_row [ none ↦ false | some q ↦ r == q ]

pub has_row_eq : (r : ℕ) (c : Chunk) → has_row r c ≡ true → c.embedding_row ≡ some r
has_row_eq r c h = ground arith

eq-has_row : (r : ℕ) (c : Chunk) → c.embedding_row ≡ some r → has_row r c ≡ true
eq-has_row r c h = rw h (ground arith)

module _ {V : Type 0} where
  -- `t` comes from `s` by freeing the rows of the chunks, and by nothing else.
  pub record FreedAll (s t : MemmapEmbedStore V) (cs : List Chunk) : Type 0 where
    pub valid : IsValid t
    pub num_rows_kept : t.state.num_rows ≡ s.state.num_rows
    pub dim_kept : t.dim ≡ s.dim
    pub validate_kept : t.validate ≡ s.validate
    pub live_iff : (r : ℕ) → live t r ≡ (live s r && not (any (has_row r) cs))
    pub kept : (r : ℕ) → live t r ≡ true → get_elem? t.rows r ≡ get_elem? s.rows r

  pub FreedAll-nil : (s : MemmapEmbedStore V) → IsValid s → FreedAll s s []
  FreedAll-nil s h = record {
    valid = h;
    num_rows_kept = refl;
    dim_kept = refl;
    validate_kept = refl;
    live_iff = λ r. ground arith;
    kept = λ r l. refl;
  }

  FreedAll-row :
      {s t u : MemmapEmbedStore V} (c : Chunk) (row : ℕ) (cs : List Chunk)
      → c.embedding_row ≡ some row
      → Freed s t row
      → FreedAll t u cs
      → FreedAll s u (c ∷ cs)
  FreedAll-row c row cs e f g = record {
    valid = g.valid;
    num_rows_kept = g.num_rows_kept ∙ f.num_rows_kept;
    dim_kept = g.dim_kept ∙ f.dim_kept;
    validate_kept = g.validate_kept ∙ f.validate_kept;
    live_iff = λ r. ground (arith, g.live_iff r, f.live_iff r);
    kept = λ r l. g.kept r l ∙ f.kept r (ground (arith, g.live_iff r));
  }

  FreedAll-skip :
      {s u : MemmapEmbedStore V} (c : Chunk) (cs : List Chunk)
      → c.embedding_row ≡ none
      → FreedAll s u cs
      → FreedAll s u (c ∷ cs)
  FreedAll-skip c cs e g = record {
    valid = g.valid;
    num_rows_kept = g.num_rows_kept;
    dim_kept = g.dim_kept;
    validate_kept = g.validate_kept;
    live_iff = λ r. ground (arith, g.live_iff r);
    kept = g.kept;
  }

module _ {V : Type 0} (x : Externals V) where
  -- The rows of chunks that were handed out can all be freed.
  pub free_chunks-FreedAll :
      (s : MemmapEmbedStore V) (cs : List Chunk)
      → IsValid s
      → ((c : Chunk) (r : ℕ) → In c cs → c.embedding_row ≡ some r → r < s.state.num_rows)
      → (t : MemmapEmbedStore V) × (free_chunks x s cs ≡ ok t) × FreedAll s t cs
  unfolding free_chunks free_chunk
  free_chunks-FreedAll s [] h below = (s, refl, FreedAll-nil s h)
  free_chunks-FreedAll s (c ∷ cs) h below = elim (Option-cases c.embedding_row) [
    | inl bare ↦
        let (t, run, freed) = free_chunks-FreedAll s cs h (λ d r m. below d r (inr m)) in
        (t, rw bare run, FreedAll-skip c cs bare freed)
    | inr (row, e) ↦
        let (t, run, first) = free_row-Freed x.numpy s row h (below c row (inl refl) e) in
        let (u, run', rest) =
          free_chunks-FreedAll t cs first.valid
            (λ d r m q. omega (arith, below d r (inr m) q, first.num_rows_kept)) in
        (u, rw (e, run) run', FreedAll-row c row cs e first rest)
  ]
