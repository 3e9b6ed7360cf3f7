-- ===== src/Searcher/Rows.antt =====
-- searcher.py: the rows that a scope allows, and the chunks that rows and ids stand for.
use longctx.Base.{
  ℕ, ◌≡◌, refl, ap, ◌∙◌, sym, Bool, true, ◌&&◌, Bool-cases, some, Option-cases, inl, inr, List, [],
  ◌∷◌, map, arith, ◌==◌, contains, any, any-In, In, In-map, In-select, select, order_with, String,
}
use longctx.ChunkStore.{ChunkStore, Chunk}
use longctx.ChunkStore.Queries.{
  list_chunk_ids_in_scope, in_projects, scope_projects, get_embedding_rows_by_chunk_ids,
  has_embedding_row, last, get_chunk_ids_by_embedding_rows,
}
use longctx.ChunkStore.Scopes.{contains-get_embedding_rows, contains-order_with}
use longctx.ChunkStore.Batches.{get_chunk_ids_by_embedding_rows-last}
use longctx.Searcher.Search.{set_of}
use longctx.Searcher.Dense.{
  filter_for, rows_for, ScopeDecision, scope_to_embedding_rows, translated,
}

pub last-some :
    (test : Chunk → Bool) (cs : List Chunk) (c : Chunk)
    → last test cs ≡ some c
    → In c cs × (test c ≡ true)
unfolding last
last-some test [] c h = absurd (ground (arith, h))
last-some test (d ∷ cs) c h = elim (Option-cases (last test cs)) [
  | inl none_later ↦ elim (Bool-cases (test d)) [
    | inl hit ↦ let same : d ≡ c = ground (arith, h) in (inl same, ap test (sym same) ∙ hit)
    | inr miss ↦ absurd (ground (arith, h))
  ]
  | inr (e, later) ↦ let (m, p) = last-some test cs c (ground (arith, h)) in (inr m, p)
]

-- A test that some chunk passes is passed by a last one.
pub last-In :
    (test : Chunk → Bool) (cs : List Chunk)
    → any test cs ≡ true
    → (c : Chunk) × (last test cs ≡ some c) × In c cs × (test c ≡ true)
unfolding last
last-In test [] h = absurd (ground arith)
last-In test (c ∷ cs) h = elim (Option-cases (last test cs)) [
  | inl none_later ↦ elim (Bool-cases (test c)) [
    | inl hit ↦ (c, ground arith, inl refl, hit)
    | inr miss ↦ let (d, e, _, _) = last-In test cs (ground arith) in absurd (ground (arith, e))
  ]
  | inr (d, e) ↦ let (m, p) = last-some test cs d e in (d, ground (arith, e), inr m, p)
]

contains-set_of : (i : ℕ) (ids : List ℕ) → contains i (set_of ids) ≡ contains i ids
unfolding set_of
contains-set_of i [] = refl
contains-set_of i (j ∷ ids) = elim (Bool-cases (j == i)) [
  | inl here ↦
      let same : j ≡ i = ground arith in
      ground (arith, contains-set_of i ids, ap (λ k. contains k ids) same)
  | inr other ↦ ground (arith, contains-set_of i ids)
]

contains-In : (i : ℕ) (is : List ℕ) → contains i is ≡ true → In i is
contains-In i [] m = absurd (ground arith)
contains-In i (j ∷ is) m = elim (Bool-cases (j == i)) [
  | inl here ↦ inl (ground arith)
  | inr later ↦ inr (contains-In i is (ground arith))
]

selected-In :
    (test : Chunk → Bool) (cs : List Chunk) (before : ℕ → ℕ → Bool) (i : ℕ)
    → contains i (order_with before (map (λ c. c.id) (select test cs))) ≡ true
    → (c : Chunk) × In c cs × (test c ≡ true) × (c.id ≡ i)
selected-In test cs before i m =
    let m' = sym (contains-order_with before i (map (λ c. c.id) (select test cs))) ∙ m in
    let (c, there, e) = In-map (λ (c : Chunk). c.id) i (select test cs) (contains-In i _ m') in
    let (m'', pass) = In-select test c cs there in (c, m'', pass, e)

-- An id that is listed for a scope is one of a chunk of the scope's projects.
listed-In :
    (st : ChunkStore) (p : String) (ps : List String) (i : ℕ)
    → contains i (list_chunk_ids_in_scope st (filter_for (p ∷ ps))) ≡ true
    → (c : Chunk) × In c st.chunks × (in_projects st (p ∷ ps) c ≡ true) × (c.id ≡ i)
unfolding list_chunk_ids_in_scope scope_projects
listed-In st p [] i m = selected-In (in_projects st (p ∷ [])) st.chunks _ i m
listed-In st p (q ∷ ps) i m = selected-In (in_projects st (p ∷ q ∷ ps)) st.chunks _ i m

pub rows_of_scope :
    (st : ChunkStore) (scope : ScopeDecision) (p : String) (ps : List String)
    → scope.fanout_projects ≡ p ∷ ps
    → scope_to_embedding_rows st scope
      ≡ some (rows_for st (list_chunk_ids_in_scope st (filter_for (p ∷ ps))))
unfolding scope_to_embedding_rows
rows_of_scope st scope p [] names = rw names refl
rows_of_scope st scope p (q ∷ ps) names = rw names refl

-- SQLite's primary key: no two chunks of one id. What is used of it is their file.
abbrev pub HasKeys : ChunkStore → Type 0
HasKeys st = (c d : Chunk) → In c st.chunks → In d st.chunks → c.id ≡ d.id → c.file_id ≡ d.file_id

-- A row that is allowed for a scope is one that a chunk of the scope's projects names.
pub allowed-In :
    (st : ChunkStore) (p : String) (ps : List String) (r : ℕ)
    → HasKeys st
    → contains r (rows_for st (list_chunk_ids_in_scope st (filter_for (p ∷ ps)))) ≡ true
    → (c : Chunk) × In c st.chunks
      × (in_projects st (p ∷ ps) c ≡ true)
      × (has_embedding_row r c ≡ true)
allowed-In st p ps r keyed m =
    let ids = list_chunk_ids_in_scope st (filter_for (p ∷ ps)) in
    let named = sym (contains-get_embedding_rows st ids r) ∙ allowed_rows ids m in
    let (c, there, pass) =
      any-In (λ c. contains c.id ids && has_embedding_row r c) st.chunks named in
    let (d, there', within, same) = listed-In st p ps c.id (ground arith) in
    (c, there, rw (keyed c d there there' (sym same)) within, ground arith)
  where
    allowed_rows :
        (is : List ℕ)
        → contains r (rows_for st is) ≡ true
        → contains r (get_embedding_rows_by_chunk_ids st is) ≡ true
    allowed_rows [] m = absurd (ground arith)
    allowed_rows (i ∷ is) m = m

pub row_named : (r : ℕ) (c : Chunk) → has_embedding_row r c ≡ true → c.embedding_row ≡ some r
row_named r c h = ground arith

-- The id that a row is translated to.
pub translated_id :
    {S : Type 0} (st : ChunkStore) (all : List ℕ) (r : ℕ) (score : S) (d : Chunk)
    → contains r all ≡ true
    → last (has_embedding_row r) st.chunks ≡ some d
    → translated (get_chunk_ids_by_embedding_rows st (set_of all)) (r, score)
      ≡ record { chunk_id = d.id; score = score }
unfolding translated
translated_id st all r score d m e =
    let found = get_chunk_ids_by_embedding_rows-last st (set_of all) r in
    rw (found, contains-set_of r all, m, e) refl
