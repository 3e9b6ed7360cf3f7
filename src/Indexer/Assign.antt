-- ===== src/Indexer/Assign.antt =====
-- indexer.py: the rows of the final chunk records.
use longctx.Base.{
  ℕ, suc, ◌≡◌, refl, sym, ap, ◌∙◌, String, true, false, none, some, inl, inr, ◌⊎◌, Option-cases,
  List, [], ◌∷◌, arith, contains, length, get_elem?, map, In, IsDistinct, eq_iff, str_eq,
}
use mathlib.Core.Path.{subst}
use longctx.Base.Result.{ok}
use longctx.Chunker.{Text}
use longctx.ChunkStore.{Chunk, contains_str}
use longctx.Embed.Valid.{Holds}
use longctx.Indexer.{Externals, chunk_hash, old_by_hash, kept_row, to_embed, assign_rows}

old_by_hash-In :
    (old : List Chunk) (h : String) (c : Chunk)
    → old_by_hash h old ≡ some c
    → In c old × (c.content_hash ≡ h)
unfolding old_by_hash
old_by_hash-In [] h c e = absurd (ground arith)
old_by_hash-In (d ∷ ds) h c e = elim (Option-cases (old_by_hash h ds)) [
  | inl last ↦
      let same : str_eq d.content_hash h ≡ true = ground arith in
      let here : d ≡ c = ground arith in
      (inl here, ap (λ (k : Chunk). k.content_hash) (sym here) ∙ (eq_iff d.content_hash h).0 same)
  | inr (k, later) ↦
      let found : old_by_hash h ds ≡ some c = ground arith in
      let (m, same) = old_by_hash-In ds h c found in (inr m, same)
]

-- A kept row is that of an old chunk of the hash.
pub kept_row-In :
    (old : List Chunk) (h : String) (r : ℕ)
    → kept_row old h ≡ some r
    → (c : Chunk) × In c old × (c.content_hash ≡ h) × (c.embedding_row ≡ some r)
unfolding kept_row
kept_row-In old h r e = elim (Option-cases (old_by_hash h old)) [
  | inl miss ↦ absurd (ground arith)
  | inr (c, found) ↦ let (m, same) = old_by_hash-In old h c found in (c, m, same, ground arith)
]

module _ {V : Type 0} (x : Externals V) (old : List Chunk) (file_id : ℕ) (new_hashes : List String)
    (file : List V) where
  pub record IsRecord (c : Chunk) : Type 0 where
    pub unassigned : c.id ≡ 0
    pub of_file : c.file_id ≡ file_id
    pub hash : c.content_hash ≡ chunk_hash x c.text
    pub among : contains_str c.content_hash new_hashes ≡ true

  -- Where the row of a final record comes from; `rows` are the new ones.
  abbrev pub Origin : List ℕ → Chunk → ℕ → Type 0
  Origin rows c r =
      (kept_row old c.content_hash ≡ some r)
      ⊎ (kept_row old c.content_hash ≡ none)
        × (contains r rows ≡ true)
        × (get_elem? file r ≡ some (x.numpy.as_float32 (x.encode c.text)))

  pub record IsFinal (rows : List ℕ) (c : Chunk) : Type 0 where
    pub record_of : IsRecord c
    pub row : ℕ
    pub has : c.embedding_row ≡ some row
    pub origin : Origin rows c row

  -- The outcome of `assign_rows`.
  pub record Assigned (recs final : List Chunk) (rows : List ℕ) : Type 0 where
    pub each : (c : Chunk) → In c final → IsFinal rows c
    pub apart :
        (c d : Chunk) (r : ℕ)
        → In c final
        → In d final
        → c.embedding_row ≡ some r
        → d.embedding_row ≡ some r
        → kept_row old c.content_hash ≡ none
        → kept_row old d.content_hash ≡ none
        → c.content_hash ≡ d.content_hash
    pub count : length final ≡ length recs

  abbrev pub embedded : List Text → List V
  embedded texts = map x.numpy.as_float32 (map x.encode texts)

  Assigned-nil : Assigned [] [] []
  Assigned-nil = record {
    each = λ c m. absurd m;
    apart = λ c d r m m' e e' k k'. absurd m;
    count = refl;
  }

  abbrev with_row : Chunk → ℕ → Chunk
  with_row rec row = record rec { embedding_row = some row }

  IsRecord-with_row : (rec : Chunk) (row : ℕ) → IsRecord rec → IsRecord (with_row rec row)
  IsRecord-with_row rec row p = record {
    unassigned = p.unassigned;
    of_file = p.of_file;
    hash = p.hash;
    among = p.among;
  }

  Assigned-kept :
      (rec : Chunk) (row : ℕ) (recs final : List Chunk) (rows : List ℕ)
      → IsRecord rec
      → kept_row old rec.content_hash ≡ some row
      → Assigned recs final rows
      → Assigned (rec ∷ recs) (with_row rec row ∷ final) rows
  Assigned-kept rec row recs final rows p k a = record {
    each = λ c m. elim m [
      | inl e ↦
          subst (λ d. IsFinal rows d) e
            (record {
              record_of = IsRecord-with_row rec row p;
              row = row;
              has = refl;
              origin = inl k;
            })
      | inr m' ↦ a.each c m'
    ];
    apart = λ c d r m m' e e' q q'. elim m [
      | inl here ↦ absurd (ground (arith, ap (λ (i : Chunk). kept_row old i.content_hash) here))
      | inr i ↦ elim m' [
        | inl here ↦ absurd (ground (arith, ap (λ (i : Chunk). kept_row old i.content_hash) here))
        | inr j ↦ a.apart c d r i j e e' q q'
      ]
    ];
    count = ap suc a.count;
  }

  -- A later record with no kept row has one of the later rows.
  later_row :
      (recs final : List Chunk) (rows : List ℕ) (d : Chunk) (r : ℕ)
      → Assigned recs final rows
      → In d final
      → d.embedding_row ≡ some r
      → kept_row old d.content_hash ≡ none
      → contains r rows ≡ true
  later_row recs final rows d r a m e q =
      let f = a.each d m in
      let same : f.row ≡ r = ground (arith, f.has) in
      elim f.origin [ inl k ↦ absurd (ground arith) | inr (_, new, _) ↦ rw same at new ]

  weaken_rows : (row : ℕ) (rows : List ℕ) (c : Chunk) → IsFinal rows c → IsFinal (row ∷ rows) c
  weaken_rows row rows c f = record {
    record_of = f.record_of;
    row = f.row;
    has = f.has;
    origin = elim f.origin [
      | inl k ↦ inl k
      | inr (none_kept, new, holds) ↦ inr (none_kept, ground arith, holds)
    ];
  }

  Assigned-new :
      (rec : Chunk) (row : ℕ) (recs final : List Chunk) (rows : List ℕ)
      → IsRecord rec
      → kept_row old rec.content_hash ≡ none
      → contains row rows ≡ false
      → get_elem? file row ≡ some (x.numpy.as_float32 (x.encode rec.text))
      → Assigned recs final rows
      → Assigned (rec ∷ recs) (with_row rec row ∷ final) (row ∷ rows)
  Assigned-new rec row recs final rows p k fresh holds a = record {
    each = λ c m. elim m [
      | inl e ↦
          subst (λ d. IsFinal (row ∷ rows) d) e
            (record {
              record_of = IsRecord-with_row rec row p;
              row = row;
              has = refl;
              origin = inr (k, ground arith, holds);
            })
      | inr m' ↦ weaken_rows row rows c (a.each c m')
    ];
    apart = λ c d r m m' e e' q q'. elim m [
      | inl here ↦ elim m' [
        | inl here' ↦
            cc (ap (λ (i : Chunk). i.content_hash) here, ap (λ (i : Chunk). i.content_hash) here')
        | inr j ↦ absurd (
            ground (
              arith,
              ap (λ (i : Chunk). i.embedding_row) here,
              later_row recs final rows d r a j e' q',
            ))
      ]
      | inr i ↦ elim m' [
        | inl here' ↦ absurd (
            ground (
              arith,
              ap (λ (i : Chunk). i.embedding_row) here',
              later_row recs final rows c r a i e q,
            ))
        | inr j ↦ a.apart c d r i j e e' q q'
      ]
    ];
    count = ap suc a.count;
  }

  -- With one new row for each text to embed, every record gets its row.
  pub assign_rows-Assigned :
      (recs : List Chunk) (rows : List ℕ)
      → ((c : Chunk) → In c recs → IsRecord c)
      → IsDistinct rows
      → Holds file rows (embedded (to_embed old recs))
      → (final : List Chunk) × (assign_rows old recs rows ≡ ok final) × Assigned recs final rows
  unfolding assign_rows to_embed
  assign_rows-Assigned [] [] p dist holds = ([], refl, Assigned-nil)
  assign_rows-Assigned [] (row ∷ rows) p dist holds = absurd holds
  assign_rows-Assigned (rec ∷ recs) [] p dist holds =
      elim (Option-cases (kept_row old rec.content_hash)) [
        | inr (row, kept) ↦
            let (final, run, a) =
              assign_rows-Assigned recs [] (λ c m. p c (inr m)) tt (rw (kept, to_embed) at holds) in
            (
              with_row rec row ∷ final,
              rw (kept, assign_rows) (rw run refl),
              Assigned-kept rec row recs final [] (p rec (inl refl)) kept a,
            )
        | inl new ↦ absurd (rw (new, to_embed) at holds)
      ]
  assign_rows-Assigned (rec ∷ recs) (row ∷ rows) p dist holds =
      elim (Option-cases (kept_row old rec.content_hash)) [
        | inr (old_row, kept) ↦
            let (final, run, a) =
              assign_rows-Assigned recs (row ∷ rows) (λ c m. p c (inr m)) dist
                (rw (kept, to_embed) at holds) in
            (
              with_row rec old_row ∷ final,
              rw (kept, assign_rows) (rw run refl),
              Assigned-kept rec old_row recs final (row ∷ rows) (p rec (inl refl)) kept a,
            )
        | inl new ↦
            let split : Holds file (row ∷ rows) (embedded (rec.text ∷ to_embed old recs)) =
              rw (new, to_embed) at holds in
            let (final, run, a) =
              assign_rows-Assigned recs rows (λ c m. p c (inr m)) dist.1 split.1 in
            (
              with_row rec row ∷ final,
              rw (new, assign_rows) (rw run refl),
              Assigned-new rec row recs final rows (p rec (inl refl)) new dist.0 split.0 a,
            )
      ]
