-- ===== src/Indexer/InOrder.antt =====
-- The chunks of a file as `get_chunks_by_file` of sqlite_store.py gives them.
use longctx.Base.{
  ℕ, ◌+◌, ◌≤◌, ◌≡◌, refl, ap, ◌∙◌, sym, Bool, true, not, inl, inr, Bool-cases, List, [], ◌∷◌, ◌++◌,
  arith, map, ◌==◌, leb, any, select, insert_with, order_with, All,
}
use mathlib.Core.List.{append-nil}
use longctx.Base.Result.{ok, integrity_error, >>=-eq-ok, ok_injective, require-eq-ok}
use longctx.Chunker
use longctx.Chunker.{Text}
use longctx.ChunkStore.{
  ChunkStore, Chunk, next_id, get_chunks_by_file, delete_chunks_by_file, upsert_chunk, upsert_rows,
  upsert_chunks,
}
use longctx.ChunkStore.Chunks.{with_id}

abbrev pub extent : Chunk → ℕ × ℕ × Text
extent c = (c.start_offset, c.end_offset, c.text)

abbrev pub raw_extent : Chunker.Chunk → ℕ × ℕ × Text
raw_extent c = (c.start_offset, c.end_offset, c.text)

-- Chunks of one file, numbered from `k`.
abbrev pub From : ℕ → ℕ → List Chunk → Type 0
From file_id k [] = Unit
From file_id k (c ∷ cs) = (c.file_id ≡ file_id) × (c.chunk_index ≡ k) × From file_id (k + 1) cs

abbrev of_file : ℕ → Chunk → Bool
of_file file_id c = c.file_id == file_id

select-From :
    (file_id k : ℕ) (cs : List Chunk) → From file_id k cs → select (of_file file_id) cs ≡ cs
select-From file_id k [] f = refl
select-From file_id k (c ∷ cs) (here, at, rest) =
    let hit : of_file file_id c ≡ true = ground arith in
    rw hit (ap (◌∷◌ c) (select-From file_id (k + 1) cs rest))

abbrev before : Chunk → Chunk → Bool
before c d = leb c.chunk_index d.chunk_index

insert_first :
    (file_id k : ℕ) (c : Chunk) (cs : List Chunk)
    → c.chunk_index ≤ k
    → From file_id k cs
    → insert_with before c cs ≡ c ∷ cs
insert_first file_id k c [] le f = refl
insert_first file_id k c (d ∷ ds) le (here, at, rest) =
    let first : before c d ≡ true = ground arith in rw first refl

order-From : (file_id k : ℕ) (cs : List Chunk) → From file_id k cs → order_with before cs ≡ cs
order-From file_id k [] f = refl
order-From file_id k (c ∷ cs) (here, at, rest) =
    rw (order-From file_id (k + 1) cs rest) (insert_first file_id (k + 1) c cs (omega arith) rest)

select-append :
    (file_id : ℕ) (xs ys : List Chunk)
    → select (of_file file_id) (xs ++ ys)
      ≡ select (of_file file_id) xs ++ select (of_file file_id) ys
select-append file_id [] ys = refl
select-append file_id (x ∷ xs) ys = elim (Bool-cases (of_file file_id x)) [
  | inl hit ↦ rw hit (ap (◌∷◌ x) (select-append file_id xs ys))
  | inr miss ↦ rw miss (select-append file_id xs ys)
]

select_others :
    (file_id : ℕ) (xs : List Chunk)
    → select (of_file file_id) (select (λ c. not (of_file file_id c)) xs) ≡ []
select_others file_id [] = refl
select_others file_id (x ∷ xs) = elim (Bool-cases (of_file file_id x)) [
  | inl hit ↦ rw hit (select_others file_id xs)
  | inr miss ↦ rw (miss, miss) (select_others file_id xs)
]

-- The chunks of a file are those that were stored behind a deletion of the old ones.
pub get_chunks_by_file-From :
    (st st' : ChunkStore) (file_id : ℕ) (news : List Chunk)
    → st'.chunks ≡ (delete_chunks_by_file st file_id).chunks ++ news
    → From file_id 0 news
    → get_chunks_by_file st' file_id ≡ news
unfolding get_chunks_by_file delete_chunks_by_file
get_chunks_by_file-From st st' file_id news e f =
    ap (λ cs. order_with before (select (of_file file_id) cs)) e
    ∙ ap (order_with before) (
        select-append file_id (select (λ c. not (of_file file_id c)) st.chunks) news
        ∙ ap (λ cs. cs ++ select (of_file file_id) news) (select_others file_id st.chunks)
        ∙ select-From file_id 0 news f)
    ∙ order-From file_id 0 news f

upsert_chunk_new :
    (st st' : ChunkStore) (c : Chunk)
    → c.id ≡ 0
    → upsert_chunk st c ≡ ok st'
    → st'.chunks ≡ st.chunks ++ with_id c (next_id (map (λ d. d.id) st.chunks)) ∷ []
unfolding upsert_chunk
upsert_chunk_new st st' c new run =
    let (there, run') =
      require-eq-ok (any (λ f. f.id == c.file_id) st.files) integrity_error _ run in
    let zero_id : (c.id == 0) ≡ true = ground arith in
    ap (λ (k : ChunkStore). k.chunks) (sym (ok_injective _ st' (rw zero_id at run')))

append-snoc : {A : Type 0} (xs : List A) (a : A) (ys : List A) → (xs ++ a ∷ []) ++ ys ≡ xs ++ a ∷ ys
append-snoc [] a ys = refl
append-snoc (x ∷ xs) a ys = ap (◌∷◌ x) (append-snoc xs a ys)

-- A run of inserts adds the chunks at the end of the table, in order.
upsert_rows-From :
    (st st' : ChunkStore) (file_id k : ℕ) (cs : List Chunk)
    → All (λ c. c.id ≡ 0) cs
    → From file_id k cs
    → upsert_rows st cs ≡ ok st'
    → (news : List Chunk) × (st'.chunks ≡ st.chunks ++ news)
      × From file_id k news
      × (map extent news ≡ map extent cs)
unfolding upsert_rows
upsert_rows-From st st' file_id k [] new f run = (
  [],
  ap (λ (s : ChunkStore). s.chunks) (sym (ok_injective st st' run)) ∙ sym (append-nil st.chunks),
  tt,
  refl,
)
upsert_rows-From st st' file_id k (c ∷ cs) (zero_id, new) (here, at, rest) run =
    let (t, first, run') = >>=-eq-ok (upsert_chunk st c) _ run in
    let (news, added, f, same) = upsert_rows-From t st' file_id (k + 1) cs new rest run' in
    let d = with_id c (next_id (map (λ d. d.id) st.chunks)) in
    (
      d ∷ news,
      added
          ∙ ap (λ ds. ds ++ news) (upsert_chunk_new st t c zero_id first)
          ∙ append-snoc st.chunks d news,
      (here, at, f),
      ap (◌∷◌ (extent c)) same,
    )

pub upsert_chunks-From :
    (st st' : ChunkStore) (file_id k : ℕ) (cs : List Chunk)
    → All (λ c. c.id ≡ 0) cs
    → From file_id k cs
    → upsert_chunks st cs ≡ ok st'
    → (news : List Chunk) × (st'.chunks ≡ st.chunks ++ news)
      × From file_id k news
      × (map extent news ≡ map extent cs)
unfolding upsert_chunks
upsert_chunks-From st st' file_id k [] new f run = (
  [],
  ap (λ (s : ChunkStore). s.chunks) (sym (ok_injective st st' run)) ∙ sym (append-nil st.chunks),
  tt,
  refl,
)
upsert_chunks-From st st' file_id k (c ∷ cs) new f run =
    let (t, first, run') = >>=-eq-ok (upsert_rows st (c ∷ cs)) _ run in
    let (news, added, f', same) = upsert_rows-From st t file_id k (c ∷ cs) new f first in
    (news, ap (λ (s : ChunkStore). s.chunks) (sym (ok_injective _ st' run')) ∙ added, f', same)
