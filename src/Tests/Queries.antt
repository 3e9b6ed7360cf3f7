-- ===== src/Tests/Queries.antt =====
-- The queries of the chunk store on concrete tables.
use longctx.Base.{
  ℕ, ◌≡◌, ◌↔◌, ◌&&◌, refl, true, map, inr, none, some, List, [], ◌∷◌, arith, contains, any, length,
}
use longctx.ChunkStore.{ChunkStore, Chunk, ScopeFilter}
use longctx.ChunkStore.Queries.{
  batches_from, ibatched, fetch, pick, last, has_embedding_row, get_chunks_by_id,
  get_chunk_ids_by_embedding_rows, get_embedding_rows_by_chunk_ids, scope_projects,
  list_chunk_ids_in_scope, chunk_count,
}
use longctx.ChunkStore.Batches.{concat}
use longctx.ChunkStore.Keys.{
  rows_of_id, IsLastOf, get_chunks_by_id_lem, get_chunk_ids_by_embedding_rows_lem,
}
use longctx.ChunkStore.Scopes.{contains-get_embedding_rows, chunk_count_lem}
use longctx.Tests.Index.{old_chunk, old_file, store}

abbrev five : List ℕ
five = 1 ∷ 2 ∷ 3 ∷ 4 ∷ 5 ∷ []

-- Two chunks in two projects.
abbrev pub wide : ChunkStore
wide = record store {
  files = old_file ∷ record old_file { id = 2; project = "q" } ∷ [];
  chunks = old_chunk ∷ record old_chunk { id = 2; file_id = 2; embedding_row = some 1 } ∷ [];
}

ibatched_run : ibatched five 2 ≡ (1 ∷ 2 ∷ []) ∷ (3 ∷ 4 ∷ []) ∷ (5 ∷ []) ∷ []
unfolding ibatched batches_from
ibatched_run = refl

get_chunks_by_id_lem_example :
    get_chunks_by_id wide (2 ∷ 7 ∷ 1 ∷ []) ≡ concat (map (rows_of_id wide.chunks) (2 ∷ 7 ∷ 1 ∷ []))
get_chunks_by_id_lem_example = get_chunks_by_id_lem wide (2 ∷ 7 ∷ 1 ∷ []) (refl, (refl, tt))

get_chunks_by_id_run : map (λ c. c.id) (get_chunks_by_id wide (2 ∷ 7 ∷ 1 ∷ [])) ≡ 2 ∷ 1 ∷ []
unfolding get_chunks_by_id pick fetch ibatched batches_from last
get_chunks_by_id_run = refl

get_chunk_ids_by_embedding_rows_lem_example :
    (get_chunk_ids_by_embedding_rows wide (1 ∷ 3 ∷ []) 1 ≡ some 2)
    ↔ ((contains 1 (1 ∷ 3 ∷ []) ≡ true) × (c : Chunk) × IsLastOf 1 c wide.chunks × (c.id ≡ 2))
get_chunk_ids_by_embedding_rows_lem_example =
    get_chunk_ids_by_embedding_rows_lem wide (1 ∷ 3 ∷ []) 1 2

contains-get_embedding_rows_example :
    contains 1 (get_embedding_rows_by_chunk_ids wide (2 ∷ []))
    ≡ any (λ c. contains c.id (2 ∷ []) && has_embedding_row 1 c) wide.chunks
contains-get_embedding_rows_example = contains-get_embedding_rows wide (2 ∷ []) 1

abbrev one_project : ScopeFilter
one_project = record { project = some "q"; project_in = none }

chunk_count_lem_example :
    chunk_count wide (some one_project) ≡ length (list_chunk_ids_in_scope wide (some one_project))
chunk_count_lem_example = chunk_count_lem wide one_project (inr refl) (λ e. ground (arith, e))

abbrev both : ScopeFilter
both = record { project = some "p"; project_in = some ("q" ∷ []) }

-- A filter that names a project and a list lists the chunks of both, and counts those of the project.
both_run :
    (chunk_count wide (some both) ≡ 1) × (list_chunk_ids_in_scope wide (some both) ≡ 1 ∷ 2 ∷ [])
unfolding chunk_count list_chunk_ids_in_scope scope_projects
both_run = (refl, refl)

abbrev no_project : ScopeFilter
no_project = record { project = none; project_in = some [] }

-- An empty list of projects lists every chunk, and counts none.
no_project_run :
    (chunk_count wide (some no_project) ≡ 0)
    × (list_chunk_ids_in_scope wide (some no_project) ≡ 1 ∷ 2 ∷ [])
unfolding chunk_count list_chunk_ids_in_scope scope_projects
no_project_run = (refl, refl)
