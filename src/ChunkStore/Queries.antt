-- ===== src/ChunkStore/Queries.antt =====
-- sqlite_store.py: the queries with `IN` lists, which are sent in batches, and those with a scope.
use longctx.Base.{
  ℕ, zero, suc, ◌-◌, String, Bool, false, ◌&&◌, Option, none, some, List, [], ◌∷◌, ◌++◌, map, ◌==◌,
  if◌then◌else◌, length, take, drop, select, any, order_by, contains,
}
use longctx.ChunkStore.{ChunkStore, Chunk, ScopeFilter, contains_str}

abbrev pub sql_in_batch : ℕ
sql_in_batch = 500

module _ {A : Type 0} where
  -- The loop of `_ibatched`.
  unfoldable pub batches_from : ℕ → List A → ℕ → List (List A)
  batches_from zero seq n = []
  batches_from (suc fuel) [] n = []
  batches_from (suc fuel) (a ∷ seq) n = take n (a ∷ seq) ∷ batches_from fuel (drop n (a ∷ seq)) n

  unfoldable pub ibatched : List A → ℕ → List (List A)
  unfolding batches_from
  ibatched seq n = batches_from (length seq) seq n

  -- One query for each batch, the rows one after the other.
  unfoldable pub fetch : (List A → Chunk → Bool) → List Chunk → List (List A) → List Chunk
  fetch test cs [] = []
  fetch test cs (batch ∷ rest) = select (test batch) cs ++ fetch test cs rest

-- `id IN (batch)`
abbrev pub id_in : List ℕ → Chunk → Bool
id_in batch c = contains c.id batch

-- `embedding_row IN (batch)`
abbrev pub row_in : List ℕ → Chunk → Bool
row_in batch c = elim c.embedding_row [ none ↦ false | some r ↦ contains r batch ]

-- The last row that passes: what a dictionary keeps of rows with one key.
unfoldable pub last : (Chunk → Bool) → List Chunk → Option Chunk
last test [] = none
last test (c ∷ cs) =
    let later = last test cs in
    elim later [ some d ↦ some d | none ↦ if test c then some c else none ]

-- `tuple(by_id[i] for i in ids if i in by_id)`, over the rows that were fetched.
unfoldable pub pick : List Chunk → List ℕ → List Chunk
unfolding last
pick rows [] = []
pick rows (i ∷ ids) =
    let rest = pick rows ids in
    elim (last (λ c. c.id == i) rows) [ none ↦ rest | some c ↦ c ∷ rest ]

unfoldable pub get_chunks_by_id : ChunkStore → List ℕ → List Chunk
unfolding pick fetch
get_chunks_by_id st ids = pick (fetch id_in st.chunks (ibatched ids sql_in_batch)) ids

unfoldable pub get_chunks_by_content_hash : ChunkStore → ℕ → List String → List Chunk
unfolding fetch
get_chunks_by_content_hash st file_id hashes =
    fetch (λ batch c. c.file_id == file_id && contains_str c.content_hash batch) st.chunks
      (ibatched hashes (sql_in_batch - 1))

abbrev pub has_embedding_row : ℕ → Chunk → Bool
has_embedding_row r c = elim c.embedding_row [ none ↦ false | some q ↦ q == r ]

-- The dictionary from rows to chunk ids, as a function.
unfoldable pub get_chunk_ids_by_embedding_rows : ChunkStore → List ℕ → ℕ → Option ℕ
unfolding fetch last
get_chunk_ids_by_embedding_rows st rows r =
    elim (last (has_embedding_row r) (fetch row_in st.chunks (ibatched rows sql_in_batch))) [
      | none ↦ none
      | some c ↦ some c.id
    ]

-- `seen`, the set of the rows of the chunks.
unfoldable pub rows_of : List Chunk → List ℕ
rows_of [] = []
rows_of (c ∷ cs) =
    let seen = rows_of cs in
    elim c.embedding_row [ none ↦ seen | some r ↦ if contains r seen then seen else r ∷ seen ]

unfoldable pub get_embedding_rows_by_chunk_ids : ChunkStore → List ℕ → List ℕ
unfolding rows_of fetch
get_embedding_rows_by_chunk_ids st ids =
    order_by (λ r. r) (rows_of (fetch id_in st.chunks (ibatched ids sql_in_batch)))

-- `_scope_chunk_ids` as a test: the projects that a filter names, `none` for no restriction.
unfoldable pub scope_projects : Option ScopeFilter → Option (List String)
scope_projects none = none
scope_projects (some scope) = elim scope.project_in [
  | none ↦ elim scope.project [ none ↦ none | some p ↦ some (p ∷ []) ]
  | some [] ↦ elim scope.project [ none ↦ none | some p ↦ some (p ∷ []) ]
  | some (q ∷ qs) ↦ elim scope.project [
    | none ↦ some (q ∷ qs)
    | some p ↦ if contains_str p (q ∷ qs) then some (q ∷ qs) else some ((q ∷ qs) ++ p ∷ [])
  ]
]

abbrev pub in_projects : ChunkStore → List String → Chunk → Bool
in_projects st projects c = any (λ f. f.id == c.file_id && contains_str f.project projects) st.files

unfoldable pub list_chunk_ids_in_scope : ChunkStore → Option ScopeFilter → List ℕ
unfolding scope_projects
list_chunk_ids_in_scope st scope = elim (scope_projects scope) [
  | none ↦ order_by (λ i. i) (map (λ c. c.id) st.chunks)
  | some projects ↦ order_by (λ i. i) (map (λ c. c.id) (select (in_projects st projects) st.chunks))
]

-- `chunk_count`: a project that is named alone is counted, whatever list stands beside it.
unfoldable pub chunk_count : ChunkStore → Option ScopeFilter → ℕ
chunk_count st none = length st.chunks
chunk_count st (some scope) = elim scope.project [
  | some p ↦ length (select (in_projects st (p ∷ [])) st.chunks)
  | none ↦ elim scope.project_in [
    | none ↦ length st.chunks
    | some [] ↦ 0
    | some (q ∷ qs) ↦ length (select (in_projects st (q ∷ qs)) st.chunks)
  ]
]
