-- ===== src/Lib.antt =====
-- A model of the core of longctx: the chunker, the two stores of the daemon, the indexer that keeps
-- them in step, the watcher that drives it, the searcher, and the scope tracker of the service. Paths
-- are from the repository's root.
--
-- The indexer (longctx_daemon/indexer.py) reads a file, has the chunker (longctx/rag/chunker.py) cut
-- its text into overlapping chunks, keeps the chunks in the chunk store
-- (longctx_daemon/storage/sqlite_store.py) and one embedding for each in the embedding store
-- (longctx_daemon/storage/memmap_store.py). A chunk names its embedding by a row. When a file changes,
-- chunks of unchanged text keep their rows, the rows of the others are freed, and new texts are
-- embedded into free rows or new ones.
--
-- Embed: MemmapEmbedStore, one function per method (append, append_batch, free_row, get, get_batch,
--   close; the loops and branches inside them under names of their own), in Embed/Open its constructor,
--   and in Embed/Search its search_dense, where the choice of the best of an array of scores is the
--   parameter Ranking, of which the theorem asks what argpartition and argsort document. The memmap and
--   the file under it are one list of rows, since they share their pages. The free list is kept with
--   its last element first. The growth factor is a fraction. Vectors, their conversion and the tests on
--   their norm are the parameter Numpy. Embed/Valid has the invariant, and what it means that rows were
--   added; the other children prove the operations.
-- Chunker: the class Chunker. A text is its code points. A chunk's id is its position and its digest.
--   A twentieth of a size, rounded down, stands for the code's product with 0.05. The digest and the
--   tokenizer are parameters; texts hold no lone surrogates, which the encoding before the digest would
--   refuse. The loops run on fuel, one more than the length of the text (or than the number of tokens),
--   as each round moves on by one at least.
-- ChunkStore: the tables and methods of SqliteChunkStore, and the records of longctx_daemon/types.py.
--   A table is the list of its rows. SQLite's foreign keys, unique keys and row ids are written out: a
--   row id is one more than the largest. Times are whole seconds. ChunkStore/Queries has the queries
--   with lists of ids, in batches of 500 as in the code, and those with a scope; a dictionary is a
--   function. The loop that makes the batches has fuel for the length of the list.
-- Indexer: _index_file and what it is made of (old_by_hash, orphans, to_embed, assign_rows and so on
--   are its local variables), and delete_file. Indexer/Manage has the methods that walk or repeat. The
--   file system, the hash, the codecs, the embedder and the filter chain are parameters.
-- DiskBudget: longctx_daemon/disk_budget.py, which drops projects by the indexer's delete_project;
--   DiskBudget/Evicted has the chunk store's tables before and after that. The
--   size of the cache is a parameter, the budget in GB a fraction; a deletion that fails is taken to
--   leave the stores as they were.
-- Watcher: longctx_daemon/watcher.py, from the registry of projects to the work that _drain_now takes
--   (drain_ready is its part under the lock); Watcher/Coalesce is _coalesce_events. The clock, and what
--   a walk of a root finds, are arguments; the order in which a walk reports deleted files is that of the
--   records. Watcher/Steps has the steps as a relation. Watcher/Apply is _apply_events, on the
--   indexer's operations; what pathlib and the disk say of a path is an argument, and a call that raises
--   is taken to leave the stores as they were. The tasks of the event loop are left out.
-- Scope: the service's scope tracker (services/longctx-svc/longctx_svc/scope/tracker.py) and the
--   clusters that it observes (scope/cluster.py). A path is the list of its parts, for an absolute path.
--   A dictionary or a set is a list in the order of insertion. Scope/Tracker/Session has a session as a
--   relation. The methods that only read the candidates are their use in observe.
-- Searcher: longctx_daemon/searcher.py. Searcher/Dense is the dense stage of search, between the two
--   stores; Searcher is _rrf_fuse and the relevance floor, Searcher/Results the loop that takes chunks,
--   Searcher/Search the rest of search from its rankings on, and search_multi over it; Searcher/Firsts
--   has the deduplication by documents. A float is the
--   parameter Floats. What the lexical stage finds, the policy's weights and the weights of the re-rank
--   by symbols, which are read from the disk, are arguments. A dictionary is a list of its entries.
--   The digits of a number have the number's successor for fuel.
-- Tests: the theorems and the definitions on concrete values.
--
-- A call that raises gives the exception and no state, so nothing is said of what is left behind by a
-- call that fails. The growing loop of append_batch has fuel for two rounds, and one growth gives room
-- enough. Not modelled: the lexical index but for its dirty flag, schema versions, locks and file modes,
-- the filter chain and the walk of directories, the digests of models, and the rest of the repository:
-- the routing of a query to a scope, servers, the rest of the sidecar service and evaluations.
pub mod Base
pub mod Embed
pub mod Chunker
pub mod ChunkStore
pub mod Indexer
pub mod DiskBudget
pub mod Watcher
pub mod Scope
pub mod Searcher
pub mod Tests
