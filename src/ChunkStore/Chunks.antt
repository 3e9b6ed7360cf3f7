-- ===== src/ChunkStore/Chunks.antt =====
-- `upsert_chunks` of sqlite_store.py, for chunks that have no id yet.
use longctx.Base.{
  ℕ, suc, ◌≡◌, refl, ap, Bool, true, inl, inr, ◌⊎◌, List, [], ◌∷◌, ◌++◌, arith, ◌==◌, map, In, any,
  In-append, contains, IsDistinct, length, false, Bool-cases, ◌<◌, ◌||◌, ◌∙◌, sym,
}
use mathlib.Core.List.{append-nil}
use longctx.Base.Result.{ok}
use longctx.ChunkStore.{ChunkStore, Chunk, next_id, upsert_chunk, upsert_rows, upsert_chunks}

append-In : {A : Type 0} (a : A) (xs ys : List A) → In a xs ⊎ In a ys → In a (xs ++ ys)
append-In a [] ys (inl m) = absurd m
append-In a [] ys (inr m) = m
append-In a (x ∷ xs) ys (inl m) = elim m [ inl e ↦ inl e | inr i ↦ inr (append-In a xs ys (inl i)) ]
append-In a (x ∷ xs) ys (inr m) = inr (append-In a xs ys (inr m))

abbrev pub has_file : ChunkStore → ℕ → Bool
has_file st file_id = any (λ f. f.id == file_id) st.files

abbrev pub with_id : Chunk → ℕ → Chunk
with_id c id = record c { id = id }

abbrev pub with_ids : List Chunk → List ℕ → List Chunk
with_ids [] ids = []
with_ids (c ∷ cs) [] = []
with_ids (c ∷ cs) (i ∷ ids) = with_id c i ∷ with_ids cs ids

abbrev pub ids_of : List Chunk → List ℕ
ids_of cs = map (λ c. c.id) cs

-- `st'` is `st` with the chunks added, in their order, under ids that are new to the table and
-- differ from one another.
pub record Inserted (st st' : ChunkStore) (cs : List Chunk) : Type 0 where
  files_kept : st'.files ≡ st.files
  pub projects_kept : st'.projects ≡ st.projects
  pub origin :
      (c : Chunk)
      → In c st'.chunks
      → In c st.chunks ⊎ (d : Chunk) × (id : ℕ) × In d cs × (with_id d id ≡ c)
  pub stored : (d : Chunk) → In d cs → (id : ℕ) × In (with_id d id) st'.chunks
  pub kept : (c : Chunk) → In c st.chunks → In c st'.chunks
  pub ids : List ℕ
  pub appended : st'.chunks ≡ st.chunks ++ with_ids cs ids
  pub enough : length ids ≡ length cs
  pub unused : (i : ℕ) → contains i ids ≡ true → contains i (ids_of st.chunks) ≡ false
  pub apart : IsDistinct ids
  pub keyed : IsDistinct (ids_of st.chunks) → IsDistinct (ids_of st'.chunks)

-- What makes a chunk one that the store takes as new: no id yet, and a file that is there.
pub record IsNew (st : ChunkStore) (c : Chunk) : Type 0 where
  pub unassigned : c.id ≡ 0
  pub of_file : has_file st c.file_id ≡ true

abbrev added : ChunkStore → Chunk → ChunkStore
added st c = record st {
  chunks = st.chunks ++ with_id c (next_id (map (λ d. d.id) st.chunks)) ∷ [];
}

upsert_chunk_lem : (st : ChunkStore) (c : Chunk) → IsNew st c → upsert_chunk st c ≡ ok (added st c)
unfolding upsert_chunk
upsert_chunk_lem st c n = rw (n.of_file) (ground (arith, n.unassigned))

next_id_above : (i : ℕ) (is : List ℕ) → contains i is ≡ true → i < next_id is
unfolding next_id
next_id_above i [] m = absurd (ground arith)
next_id_above i (j ∷ is) m = elim (Bool-cases (j == i)) [
  | inl here ↦ ground arith
  | inr later ↦ let le = next_id_above i is (ground arith) in omega (arith, le)
]

-- The id that the table gives is not in it yet.
pub contains-next_id : (is : List ℕ) → contains (next_id is) is ≡ false
contains-next_id is = elim (Bool-cases (contains (next_id is) is)) [
  | inl taken ↦ absurd (let lt = next_id_above (next_id is) is taken in omega (arith, lt))
  | inr free ↦ free
]

contains-ids_last :
    (i : ℕ) (cs : List Chunk) (c : Chunk)
    → contains i (ids_of (cs ++ c ∷ [])) ≡ (contains i (ids_of cs) || c.id == i)
contains-ids_last i [] c = ground arith
contains-ids_last i (d ∷ cs) c = ground (arith, contains-ids_last i cs c)

ids_last-IsDistinct :
    (cs : List Chunk) (c : Chunk)
    → contains c.id (ids_of cs) ≡ false
    → IsDistinct (ids_of cs)
    → IsDistinct (ids_of (cs ++ c ∷ []))
ids_last-IsDistinct [] c out d = (refl, tt)
ids_last-IsDistinct (e ∷ cs) c out (first, d) =
    (ground (arith, contains-ids_last e.id cs c), ids_last-IsDistinct cs c (ground arith) d)

append_twice :
    {A : Type 0} (xs : List A) (x : A) (ys : List A) → (xs ++ x ∷ []) ++ ys ≡ xs ++ x ∷ ys
append_twice [] x ys = refl
append_twice (y ∷ xs) x ys = ap (◌∷◌ y) (append_twice xs x ys)

Inserted-cons :
    (st u : ChunkStore) (c : Chunk) (cs : List Chunk)
    → Inserted (added st c) u cs
    → Inserted st u (c ∷ cs)
Inserted-cons st u c cs i =
    let id = next_id (map (λ d. d.id) st.chunks) in
    record {
      files_kept = i.files_kept;
      projects_kept = i.projects_kept;
      origin = λ k m. elim (i.origin k m) [
        | inl old ↦ elim (In-append k st.chunks (with_id c id ∷ []) old) [
          | inl before ↦ inl before
          | inr here ↦ elim here [
            | inl e ↦ inr (c, id, inl refl, e)
            | inr none_left ↦ absurd none_left
          ]
        ]
        | inr (d, id', m', e) ↦ inr (d, id', inr m', e)
      ];
      stored = λ d m. elim m [
        | inl e ↦ (
          id,
          i.kept (with_id d id) (
              append-In (with_id d id) st.chunks (with_id c id ∷ [])
                (inr (inl (ap (λ (k : Chunk). with_id k id) e)))),
        )
        | inr m' ↦ i.stored d m'
      ];
      kept = λ k m. i.kept k (append-In k st.chunks (with_id c id ∷ []) (inl m));
      ids = id ∷ i.ids;
      appended = i.appended ∙ append_twice st.chunks (with_id c id) (with_ids cs i.ids);
      enough = ap suc i.enough;
      unused = λ j m. elim (Bool-cases (id == j)) [
        | inl same ↦
            let e : id ≡ j = ground arith in
            ap (λ k. contains k (ids_of st.chunks)) (sym e) ∙ contains-next_id (ids_of st.chunks)
        | inr other ↦ ground (arith, i.unused j, contains-ids_last j st.chunks (with_id c id))
      ];
      apart = (ground (arith, i.unused id, contains-ids_last id st.chunks (with_id c id)), i.apart);
      keyed = λ d.
          i.keyed
            (ids_last-IsDistinct st.chunks (with_id c id) (contains-next_id (ids_of st.chunks)) d);
    }

Inserted-nil : (st : ChunkStore) → Inserted st st []
Inserted-nil st = record {
  files_kept = refl;
  projects_kept = refl;
  origin = λ c m. inl m;
  stored = λ d m. absurd m;
  kept = λ c m. m;
  ids = [];
  appended = sym (append-nil st.chunks);
  enough = refl;
  unused = λ i m. absurd (ground arith);
  apart = tt;
  keyed = λ d. d;
}

upsert_rows-Inserted :
    (st : ChunkStore) (cs : List Chunk)
    → ((c : Chunk) → In c cs → IsNew st c)
    → (st' : ChunkStore) × (upsert_rows st cs ≡ ok st') × Inserted st st' cs
unfolding upsert_rows
upsert_rows-Inserted st [] n = (st, refl, Inserted-nil st)
upsert_rows-Inserted st (c ∷ cs) n =
    let (u, run, i) =
      upsert_rows-Inserted (added st c) cs
        (λ d m. let p = n d (inr m) in record { unassigned = p.unassigned; of_file = p.of_file }) in
    (u, rw (upsert_chunk_lem st c (n c (inl refl))) run, Inserted-cons st u c cs i)

-- A batch of new chunks of known files is stored as a whole: it follows what the table had, in its
-- order, under ids that are new to the table and differ from one another, so that distinct ids stay
-- distinct; files and projects stay.
pub upsert_chunks-Inserted :
    (st : ChunkStore) (cs : List Chunk)
    → ((c : Chunk) → In c cs → IsNew st c)
    → (st' : ChunkStore) × (upsert_chunks st cs ≡ ok st') × Inserted st st' cs
unfolding upsert_chunks
upsert_chunks-Inserted st [] n = (st, refl, Inserted-nil st)
upsert_chunks-Inserted st (c ∷ cs) n =
    let (u, run, i) = upsert_rows-Inserted st (c ∷ cs) n in
    (
      record u { bm25_dirty = true },
      rw run refl,
      record {
        files_kept = i.files_kept;
        projects_kept = i.projects_kept;
        origin = i.origin;
        stored = i.stored;
        kept = i.kept;
        ids = i.ids;
        appended = i.appended;
        enough = i.enough;
        unused = i.unused;
        apart = i.apart;
        keyed = i.keyed;
      },
    )
