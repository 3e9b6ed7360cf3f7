-- ===== src/ChunkStore/Scopes.antt =====
-- The queries that the searcher puts between the two stores, and the counts of a scope.
use longctx.Base.{
  ℕ, suc, ◌≡◌, ◌≢◌, refl, ap, ◌∙◌, sym, Bool, false, ◌&&◌, ◌||◌, Option, none, some, inl, inr, ◌⊎◌,
  Bool-cases, Option-cases, List, [], ◌∷◌, ◌++◌, arith, ◌==◌, length, select, contains,
  contains-append, any, map, order_by, order_with, insert_with, length-order_with, String,
}
use longctx.ChunkStore.{ChunkStore, Chunk, ScopeFilter}
use longctx.ChunkStore.Queries.{
  ibatched, fetch, id_in, has_embedding_row, rows_of, get_embedding_rows_by_chunk_ids, sql_in_batch,
  scope_projects, in_projects, list_chunk_ids_in_scope, chunk_count,
}
use longctx.ChunkStore.Batches.{concat, ibatched-concat}

module _ (before : ℕ → ℕ → Bool) where
  pub contains-insert_with :
      (r x : ℕ) (xs : List ℕ) → contains r (insert_with before x xs) ≡ (r == x || contains r xs)
  contains-insert_with r x [] = ground arith
  contains-insert_with r x (y ∷ ys) = ground (arith, contains-insert_with r x ys)

  pub contains-order_with :
      (r : ℕ) (xs : List ℕ) → contains r (order_with before xs) ≡ contains r xs
  contains-order_with r [] = refl
  contains-order_with r (x ∷ xs) =
      ground (arith, contains-insert_with r x (order_with before xs), contains-order_with r xs)

contains-rows_of :
    (r : ℕ) (cs : List Chunk) → contains r (rows_of cs) ≡ any (has_embedding_row r) cs
unfolding rows_of
contains-rows_of r [] = refl
contains-rows_of r (c ∷ cs) = elim (Option-cases c.embedding_row) [
  | inl bare ↦ ground (arith, contains-rows_of r cs)
  | inr (q, named) ↦ elim (Bool-cases (q == r)) [
    | inl hit ↦
        let same : q ≡ r = ground arith in
        ground (arith, contains-rows_of r cs, ap (λ (k : ℕ). contains k (rows_of cs)) same)
    | inr miss ↦ ground (arith, contains-rows_of r cs)
  ]
]

any-append :
    (test : Chunk → Bool) (xs ys : List Chunk) → any test (xs ++ ys) ≡ (any test xs || any test ys)
any-append test [] ys = refl
any-append test (x ∷ xs) ys = ground (arith, any-append test xs ys)

any-select :
    (test key : Chunk → Bool) (cs : List Chunk)
    → any key (select test cs) ≡ any (λ c. test c && key c) cs
any-select test key [] = refl
any-select test key (c ∷ cs) = ground (arith, any-select test key cs)

any-or :
    (key : Chunk → Bool) (b bs : List ℕ) (cs : List Chunk)
    → (any (λ c. contains c.id b && key c) cs || any (λ c. contains c.id bs && key c) cs)
      ≡ any (λ c. contains c.id (b ++ bs) && key c) cs
any-or key b bs [] = refl
any-or key b bs (c ∷ cs) = ground (arith, any-or key b bs cs, contains-append c.id b bs)

any-none : (key : Chunk → Bool) (cs : List Chunk) → any (λ c. contains c.id [] && key c) cs ≡ false
any-none key [] = refl
any-none key (c ∷ cs) = ground (arith, any-none key cs)

any-fetch :
    (key : Chunk → Bool) (cs : List Chunk) (bs : List (List ℕ))
    → any key (fetch id_in cs bs) ≡ any (λ c. contains c.id (concat bs) && key c) cs
unfolding fetch
any-fetch key cs [] = sym (any-none key cs)
any-fetch key cs (b ∷ bs) =
    any-append key (select (id_in b) cs) (fetch id_in cs bs)
    ∙ ap (λ v. v || any key (fetch id_in cs bs)) (any-select (id_in b) key cs)
    ∙ ap (λ v. any (λ c. contains c.id b && key c) cs || v) (any-fetch key cs bs)
    ∙ any-or key b (concat bs) cs

-- `get_embedding_rows_by_chunk_ids` returns exactly the rows that chunks of the given ids name.
pub contains-get_embedding_rows :
    (st : ChunkStore) (ids : List ℕ) (r : ℕ)
    → contains r (get_embedding_rows_by_chunk_ids st ids)
      ≡ any (λ c. contains c.id ids && has_embedding_row r c) st.chunks
unfolding get_embedding_rows_by_chunk_ids
contains-get_embedding_rows st ids r =
    contains-order_with _ r (rows_of (fetch id_in st.chunks (ibatched ids sql_in_batch)))
    ∙ contains-rows_of r (fetch id_in st.chunks (ibatched ids sql_in_batch))
    ∙ any-fetch (has_embedding_row r) st.chunks (ibatched ids sql_in_batch)
    ∙ ap (λ k. any (λ c. contains c.id k && has_embedding_row r c) st.chunks)
        (ibatched-concat ids sql_in_batch (omega arith)).0

length-map : (cs : List Chunk) → length (map (λ c. c.id) cs) ≡ length cs
length-map [] = refl
length-map (c ∷ cs) = ap suc (length-map cs)

length-ids :
    (cs : List Chunk) → length (order_by (λ i. i) (map (λ (c : Chunk). c.id) cs)) ≡ length cs
length-ids cs = length-order_with _ (map (λ (c : Chunk). c.id) cs) ∙ length-map cs

chunk_count_of :
    (st : ChunkStore) (project : Option String) (project_in : Option (List String))
    → (project ≡ none) ⊎ (project_in ≡ none)
    → project_in ≢ some []
    → chunk_count st (some (record { project = project; project_in = project_in }))
      ≡ length (
          list_chunk_ids_in_scope st (some (record { project = project; project_in = project_in })))
unfolding chunk_count list_chunk_ids_in_scope scope_projects
chunk_count_of st none none one filled = sym (length-ids st.chunks)
chunk_count_of st none (some []) one filled = absurd (filled refl)
chunk_count_of st none (some (q ∷ qs)) one filled =
    sym (length-ids (select (in_projects st (q ∷ qs)) st.chunks))
chunk_count_of st (some p) none one filled =
    sym (length-ids (select (in_projects st (p ∷ [])) st.chunks))
chunk_count_of st (some p) (some qs) one filled =
    absurd (elim one [ inl e ↦ ground (arith, e) | inr e ↦ ground (arith, e) ])

-- A filter that does not name both a project and a list of projects, nor an empty list, counts the
-- chunks that it lists.
pub chunk_count_lem :
    (st : ChunkStore) (scope : ScopeFilter)
    → (scope.project ≡ none) ⊎ (scope.project_in ≡ none)
    → scope.project_in ≢ some []
    → chunk_count st (some scope) ≡ length (list_chunk_ids_in_scope st (some scope))
chunk_count_lem st scope one filled = chunk_count_of st scope.project scope.project_in one filled
