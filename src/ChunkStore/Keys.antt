-- ===== src/ChunkStore/Keys.antt =====
-- sqlite_store.py: what the dictionaries of `get_chunks_by_id` and `get_chunk_ids_by_embedding_rows`
-- keep of the rows, against the table.
use longctx.Base.{
  ℕ, ◌≡◌, ◌≢◌, ◌↔◌, refl, ap, ◌∙◌, sym, true, false, Option, none, some, inl, inr, Bool-cases,
  Option-cases, List, [], ◌∷◌, ◌++◌, map, arith, ◌==◌, select, contains, IsDistinct, In,
}
use longctx.ChunkStore.{ChunkStore, Chunk}
use longctx.ChunkStore.Queries.{
  last, pick, has_embedding_row, get_chunks_by_id, get_chunk_ids_by_embedding_rows,
}
use longctx.ChunkStore.Chunks.{ids_of}
use longctx.ChunkStore.Batches.{
  concat, or_else, last-append, get_chunks_by_id-pick, get_chunk_ids_by_embedding_rows-last,
}

-- The rows of an id, in the order of the table.
abbrev pub rows_of_id : List Chunk → ℕ → List Chunk
rows_of_id cs i = select (λ c. c.id == i) cs

absent_id :
    (i : ℕ) (cs : List Chunk)
    → contains i (ids_of cs) ≡ false
    → (rows_of_id cs i ≡ []) × (last (λ c. c.id == i) cs ≡ none)
unfolding last
absent_id i [] out = (refl, refl)
absent_id i (d ∷ cs) out =
    let (none_there, none_last) = absent_id i cs (ground arith) in
    (ground (arith, none_there), ground (arith, none_last))

abbrev listed : Option Chunk → List Chunk
listed none = []
listed (some c) = c ∷ []

-- Of an id that is a key there is one row at most, which is the last one.
rows_of_id-last :
    (i : ℕ) (cs : List Chunk)
    → IsDistinct (ids_of cs)
    → listed (last (λ c. c.id == i) cs) ≡ rows_of_id cs i
unfolding last
rows_of_id-last i [] d = refl
rows_of_id-last i (c ∷ cs) (out, d) = elim (Bool-cases (c.id == i)) [
  | inl hit ↦
      let same : c.id ≡ i = ground arith in
      let (none_there, none_last) =
        absent_id i cs (ap (λ k. contains k (ids_of cs)) (sym same) ∙ out) in
      rw (none_last, hit, none_there) refl
  | inr miss ↦ elim (Option-cases (last (λ c. c.id == i) cs)) [
    | inl gone ↦ rw (gone, miss) (ap listed (sym gone) ∙ rows_of_id-last i cs d)
    | inr (e, later) ↦ rw (later, miss) (ap listed (sym later) ∙ rows_of_id-last i cs d)
  ]
]

pick-rows_of_id :
    (cs : List Chunk) (ids : List ℕ)
    → IsDistinct (ids_of cs)
    → pick cs ids ≡ concat (map (rows_of_id cs) ids)
unfolding pick
pick-rows_of_id cs [] d = refl
pick-rows_of_id cs (i ∷ ids) d = elim (Option-cases (last (λ c. c.id == i) cs)) [
  | inl gone ↦
      rw (gone, pick)
        (pick-rows_of_id cs ids d
          ∙ ap (λ rows. rows ++ concat (map (rows_of_id cs) ids))
              (ap listed (sym gone) ∙ rows_of_id-last i cs d))
  | inr (c, there) ↦
      rw (there, pick)
        (ap (◌∷◌ c) (pick-rows_of_id cs ids d)
          ∙ ap (λ rows. rows ++ concat (map (rows_of_id cs) ids))
              (ap listed (sym there) ∙ rows_of_id-last i cs d))
]

-- `get_chunks_by_id` gives, for each id of the request in its order, the row of the table that has
-- it, if there is one, where the ids of the table are distinct; an id that is asked for twice is
-- answered twice.
pub get_chunks_by_id_lem :
    (st : ChunkStore) (ids : List ℕ)
    → IsDistinct (ids_of st.chunks)
    → get_chunks_by_id st ids ≡ concat (map (rows_of_id st.chunks) ids)
get_chunks_by_id_lem st ids d = get_chunks_by_id-pick st ids ∙ pick-rows_of_id st.chunks ids d

-- The chunk names the row, and no chunk that follows it in the table does.
abbrev pub IsLastOf : ℕ → Chunk → List Chunk → Type 0
IsLastOf r c cs =
    (front : List Chunk) × (back : List Chunk) × (cs ≡ front ++ c ∷ back)
    × (c.embedding_row ≡ some r)
    × ((d : Chunk) → In d back → d.embedding_row ≢ some r)

names_row : (r : ℕ) (c : Chunk) → has_embedding_row r c ≡ true → c.embedding_row ≡ some r
names_row r c h = ground arith

row_named : (r : ℕ) (c : Chunk) → c.embedding_row ≡ some r → has_embedding_row r c ≡ true
row_named r c e = rw e (ground arith)

none-last :
    (r : ℕ) (cs : List Chunk) (d : Chunk)
    → last (has_embedding_row r) cs ≡ none
    → In d cs
    → d.embedding_row ≢ some r
unfolding last
none-last r [] d gone m e = absurd m
none-last r (c ∷ cs) d gone m e = elim (Option-cases (last (has_embedding_row r) cs)) [
  | inr (k, later) ↦ absurd (ground (arith, gone, later))
  | inl none_later ↦ elim m [
    | inr after ↦ none-last r cs d none_later after e
    | inl here ↦
        let named = row_named r c (ap (λ (k : Chunk). k.embedding_row) here ∙ e) in
        absurd (ground (arith, gone, none_later, named))
  ]
]

last-none :
    (r : ℕ) (cs : List Chunk)
    → ((d : Chunk) → In d cs → d.embedding_row ≢ some r)
    → last (has_embedding_row r) cs ≡ none
unfolding last
last-none r [] away = refl
last-none r (c ∷ cs) away = elim (Bool-cases (has_embedding_row r c)) [
  | inl named ↦ absurd (away c (inl refl) (names_row r c named))
  | inr bare ↦ ground (arith, last-none r cs (λ d m. away d (inr m)), bare)
]

last-IsLastOf :
    (r : ℕ) (cs : List Chunk) (c : Chunk) → last (has_embedding_row r) cs ≡ some c → IsLastOf r c cs
unfolding last
last-IsLastOf r [] c h = absurd (ground (arith, h))
last-IsLastOf r (d ∷ cs) c h = elim (Option-cases (last (has_embedding_row r) cs)) [
  | inr (e, later) ↦
      let (front, back, split, named, after) = last-IsLastOf r cs c (ground (arith, h)) in
      (d ∷ front, back, ap (◌∷◌ d) split, named, after)
  | inl none_later ↦ elim (Bool-cases (has_embedding_row r d)) [
    | inr bare ↦ absurd (ground (arith, h))
    | inl named ↦
        let same : d ≡ c = ground (arith, h) in
        (
          [],
          cs,
          ap (λ k. k ∷ cs) same,
          ap (λ (k : Chunk). k.embedding_row) (sym same) ∙ names_row r d named,
          λ e m. none-last r cs e none_later m,
        )
  ]
]

IsLastOf-last :
    (r : ℕ) (cs : List Chunk) (c : Chunk) → IsLastOf r c cs → last (has_embedding_row r) cs ≡ some c
unfolding last
IsLastOf-last r cs c (front, back, split, named, after) =
    let none_later = last-none r back after in
    let here : last (has_embedding_row r) (c ∷ back) ≡ some c =
      ground (arith, none_later, row_named r c named) in
    ap (last (has_embedding_row r)) split
    ∙ last-append (has_embedding_row r) front (c ∷ back)
    ∙ ap (λ o. or_else o (last (has_embedding_row r) front)) here

-- The dictionary of `get_chunk_ids_by_embedding_rows` has an id for exactly the rows that were asked
-- for and that some chunk names: the id of the last such chunk of the table.
pub get_chunk_ids_by_embedding_rows_lem :
    (st : ChunkStore) (rows : List ℕ) (r i : ℕ)
    → (get_chunk_ids_by_embedding_rows st rows r ≡ some i)
      ↔ ((contains r rows ≡ true) × (c : Chunk) × IsLastOf r c st.chunks × (c.id ≡ i))
get_chunk_ids_by_embedding_rows_lem st rows r i = (
  (λ e.
      let e' = sym (get_chunk_ids_by_embedding_rows-last st rows r) ∙ e in
      elim (Bool-cases (contains r rows)) [
        | inr away ↦ absurd (ground (arith, away, e'))
        | inl asked ↦ elim (Option-cases (last (has_embedding_row r) st.chunks)) [
          | inl gone ↦ absurd (ground (arith, asked, gone, e'))
          | inr (c, there) ↦
              (asked, c, last-IsLastOf r st.chunks c there, ground (arith, asked, there, e'))
        ]
      ]),
  (λ (asked, c, is_last, named).
      get_chunk_ids_by_embedding_rows-last st rows r
      ∙ (rw (asked, IsLastOf-last r st.chunks c is_last) (ap some named))),
)
