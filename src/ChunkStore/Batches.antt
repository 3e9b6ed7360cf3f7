-- ===== src/ChunkStore/Batches.antt =====
-- sqlite_store.py: the batches of `_ibatched`, and the queries that are sent in batches.
use longctx.Base.{
  ℕ, zero, suc, ◌≤◌, ◌<◌, ◌≡◌, refl, ap, ◌∙◌, Bool, true, false, Option, none, some, inl, inr,
  Bool-cases, Option-cases, List, [], ◌∷◌, ◌++◌, arith, ◌==◌, length, take, drop, select, contains,
  contains-append, All, take-append-drop, length-take, length-drop,
}
use longctx.ChunkStore.{ChunkStore, Chunk}
use longctx.ChunkStore.Queries.{
  batches_from, ibatched, fetch, id_in, row_in, last, pick, get_chunks_by_id, has_embedding_row,
  get_chunk_ids_by_embedding_rows, sql_in_batch,
}

abbrev pub concat : {A : Type 0} → List (List A) → List A
concat [] = []
concat (b ∷ bs) = b ++ concat bs

module _ {A : Type 0} where
  -- A batch is not empty and within the limit.
  abbrev pub IsBatch : ℕ → List A → Type 0
  IsBatch n b = (0 < length b) × (length b ≤ n)

  batches_from-IsBatch :
      (fuel : ℕ) (seq : List A) (n : ℕ)
      → 0 < n
      → length seq ≤ fuel
      → (concat (batches_from fuel seq n) ≡ seq) × All (IsBatch n) (batches_from fuel seq n)
  unfolding batches_from
  batches_from-IsBatch zero [] n pos le = (refl, tt)
  batches_from-IsBatch zero (a ∷ seq) n pos le = absurd (omega arith)
  batches_from-IsBatch (suc fuel) [] n pos le = (refl, tt)
  batches_from-IsBatch (suc fuel) (a ∷ seq) n pos le =
      let (whole, each) =
        batches_from-IsBatch fuel (drop n (a ∷ seq)) n pos
          (omega (arith, length-drop n (a ∷ seq))) in
      (
        ap (λ k. take n (a ∷ seq) ++ k) whole ∙ take-append-drop n (a ∷ seq),
        ((omega (arith, length-take n (a ∷ seq)), omega (arith, length-take n (a ∷ seq))), each),
      )

  -- The batches of a sequence, joined, are the sequence, and each has at least one element and at
  -- most `n`, for `n` above zero.
  pub ibatched-concat :
      (seq : List A) (n : ℕ)
      → 0 < n
      → (concat (ibatched seq n) ≡ seq) × All (IsBatch n) (ibatched seq n)
  unfolding ibatched
  ibatched-concat seq n pos = batches_from-IsBatch (length seq) seq n pos (omega arith)

abbrev pub or_else : Option Chunk → Option Chunk → Option Chunk
or_else none o = o
or_else (some d) o = some d

-- The row, if it was asked for.
abbrev pub when : Bool → Option Chunk → Option Chunk
when true o = o
when false o = none

pub last-append :
    (test : Chunk → Bool) (xs ys : List Chunk)
    → last test (xs ++ ys) ≡ or_else (last test ys) (last test xs)
unfolding last
last-append test [] ys = ground arith
last-append test (x ∷ xs) ys = ground (arith, last-append test xs ys)

-- Rows of one key all pass, or none does.
last-select :
    (key test : Chunk → Bool) (v : Bool) (cs : List Chunk)
    → ((c : Chunk) → key c ≡ true → test c ≡ v)
    → last key (select test cs) ≡ when v (last key cs)
unfolding last
last-select key test v [] same = ground arith
last-select key test v (c ∷ cs) same = elim (Bool-cases (key c)) [
  | inl hit ↦ ground (arith, last-select key test v cs same, same c hit)
  | inr miss ↦ elim (Bool-cases (test c)) [
    | inl kept ↦ ground (arith, last-select key test v cs same)
    | inr gone ↦ ground (arith, last-select key test v cs same)
  ]
]

last-fetch :
    (key : Chunk → Bool) (test : List ℕ → Chunk → Bool) (i : ℕ) (cs : List Chunk)
    (bs : List (List ℕ))
    → ((b : List ℕ) (c : Chunk) → key c ≡ true → test b c ≡ contains i b)
    → last key (fetch test cs bs) ≡ when (contains i (concat bs)) (last key cs)
unfolding fetch last
last-fetch key test i cs [] same = refl
last-fetch key test i cs (b ∷ bs) same = ground (
  arith,
  last-append key (select (test b) cs) (fetch test cs bs),
  last-select key (test b) (contains i b) cs (same b),
  last-fetch key test i cs bs same,
  contains-append i b (concat bs),
)

last-query :
    (key : Chunk → Bool) (test : List ℕ → Chunk → Bool) (i : ℕ) (cs : List Chunk) (ids : List ℕ)
    → ((b : List ℕ) (c : Chunk) → key c ≡ true → test b c ≡ contains i b)
    → last key (fetch test cs (ibatched ids sql_in_batch)) ≡ when (contains i ids) (last key cs)
last-query key test i cs ids same =
    last-fetch key test i cs (ibatched ids sql_in_batch) same
    ∙ ap (λ k. when (contains i k) (last key cs)) (ibatched-concat ids sql_in_batch (omega arith)).0

same_id : (c : Chunk) (i : ℕ) → (c.id == i) ≡ true → c.id ≡ i
same_id c i e = ground arith

row_in_batch :
    (b : List ℕ) (c : Chunk) (r : ℕ) → has_embedding_row r c ≡ true → row_in b c ≡ contains r b
row_in_batch b c r e = elim (Option-cases c.embedding_row) [
  | inl bare ↦ absurd (ground arith)
  | inr (q, named) ↦
      let same : q ≡ r = ground arith in ground (arith, ap (λ (k : ℕ). contains k b) same)
]

pick_same :
    (rows rows' : List Chunk) (ids : List ℕ)
    → ((i : ℕ) → contains i ids ≡ true → last (λ c. c.id == i) rows ≡ last (λ c. c.id == i) rows')
    → pick rows ids ≡ pick rows' ids
unfolding pick
pick_same rows rows' [] same = refl
pick_same rows rows' (i ∷ ids) same =
    ground (arith, same i (ground arith), pick_same rows rows' ids (λ j m. same j (ground arith)))

-- The batches do not show in `get_chunks_by_id`.
pub get_chunks_by_id-pick :
    (st : ChunkStore) (ids : List ℕ) → get_chunks_by_id st ids ≡ pick st.chunks ids
unfolding get_chunks_by_id
get_chunks_by_id-pick st ids =
    pick_same (fetch id_in st.chunks (ibatched ids sql_in_batch)) st.chunks ids (λ i m.
      last-query (λ c. c.id == i) id_in i st.chunks ids
        (λ b c e. ground (arith, ap (λ (k : ℕ). contains k b) (same_id c i e)))
      ∙ ap (λ v. when v (last (λ c. c.id == i) st.chunks)) m)

-- Nor in the dictionary of `get_chunk_ids_by_embedding_rows`.
pub get_chunk_ids_by_embedding_rows-last :
    (st : ChunkStore) (rows : List ℕ) (r : ℕ)
    → get_chunk_ids_by_embedding_rows st rows r
      ≡ (elim (when (contains r rows) (last (has_embedding_row r) st.chunks)) as (λ o. Option ℕ) [
        | none ↦ none
        | some c ↦ some c.id
      ])
unfolding get_chunk_ids_by_embedding_rows
get_chunk_ids_by_embedding_rows-last st rows r =
    ap (λ o. elim o as (λ o. Option ℕ) [ none ↦ none | some c ↦ some c.id ])
      (last-query (has_embedding_row r) row_in r st.chunks rows (λ b c e. row_in_batch b c r e))
