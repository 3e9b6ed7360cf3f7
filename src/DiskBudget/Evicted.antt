-- ===== src/DiskBudget/Evicted.antt =====
-- The tables of the chunk store, before and after some projects are evicted.
use longctx.Base.{
  ◌≡◌, ◌≢◌, refl, ap, sym, String, true, not, inl, inr, ◌⊎◌, Bool-cases, List, [], ◌∷◌, arith, In,
  In-select, select-In, str_eq, eq_iff,
}
use mathlib.Core.Path.{subst}
use longctx.Base.Result.{ok, ok_injective, >>=-eq-ok}
use longctx.ChunkStore
use longctx.ChunkStore.{ChunkStore, Chunk, FileRecord, Project, list_files, file_ids}
use longctx.Indexer.{Externals, Stores}
use longctx.Indexer.Drop.{IsFileOf}
use longctx.Indexer.Manage.{free_files, delete_project}

-- `name` is none of the targets.
abbrev pub IsSpared : List String → String → Type 0
IsSpared targets name = In name targets → ⊥

-- The chunk is of no file of a target.
abbrev pub IsKept : ChunkStore → List String → Chunk → Type 0
IsKept st targets c = (f : FileRecord) → In f st.files → In f.project targets → c.file_id ≢ f.id

-- The projects of `st'` are those of `st` that are no targets, with their files, and the chunks those
-- of no file of a target.
pub record Evicted (st st' : ChunkStore) (targets : List String) : Type 0 where
  pub projects_left : (p : Project) → In p st'.projects → In p st.projects × IsSpared targets p.name
  pub projects_kept : (p : Project) → In p st.projects → IsSpared targets p.name → In p st'.projects
  pub files_left : (f : FileRecord) → In f st'.files → In f st.files × IsSpared targets f.project
  pub files_kept : (f : FileRecord) → In f st.files → IsSpared targets f.project → In f st'.files
  pub chunks_left : (c : Chunk) → In c st'.chunks → In c st.chunks × IsKept st targets c
  pub chunks_kept : (c : Chunk) → In c st.chunks → IsKept st targets c → In c st'.chunks

pub Evicted-nil : (st : ChunkStore) → Evicted st st []
Evicted-nil st = record {
  projects_left = λ p m. (m, λ n. n);
  projects_kept = λ p m _. m;
  files_left = λ f m. (m, λ n. n);
  files_kept = λ f m _. m;
  chunks_left = λ c m. (m, λ f _ n. absurd n);
  chunks_kept = λ c m _. m;
}

IsSpared-cons :
    (name k : String) (targets : List String)
    → IsSpared (name ∷ []) k
    → IsSpared targets k
    → IsSpared (name ∷ targets) k
IsSpared-cons name k targets first later (inl e) = first (inl e)
IsSpared-cons name k targets first later (inr m) = later m

IsSpared-first :
    (name k : String) (targets : List String) → IsSpared (name ∷ targets) k → IsSpared (name ∷ []) k
IsSpared-first name k targets spared (inl e) = spared (inl e)
IsSpared-first name k targets spared (inr m) = absurd m

IsSpared-or_named : (name k : String) → IsSpared (name ∷ []) k ⊎ (name ≡ k)
IsSpared-or_named name k = elim (Bool-cases (str_eq name k)) [
  | inl same ↦ inr ((eq_iff name k).0 same)
  | inr differs ↦ inl (λ m. elim m [
    | inl e ↦ absurd (ground (arith, differs, (eq_iff name k).1 e))
    | inr nowhere ↦ absurd nowhere
  ])
]

-- One target, and then the others.
pub Evicted-cons :
    (st st' st'' : ChunkStore) (name : String) (targets : List String)
    → Evicted st st' (name ∷ [])
    → Evicted st' st'' targets
    → Evicted st st'' (name ∷ targets)
Evicted-cons st st' st'' name targets one rest = record {
  projects_left = λ p m.
      let (m', later) = rest.projects_left p m in
      let (m0, first) = one.projects_left p m' in
      (m0, IsSpared-cons name p.name targets first later);
  projects_kept = λ p m spared.
      rest.projects_kept p (one.projects_kept p m (IsSpared-first name p.name targets spared))
        (λ n. spared (inr n));
  files_left = λ f m.
      let (m', later) = rest.files_left f m in
      let (m0, first) = one.files_left f m' in
      (m0, IsSpared-cons name f.project targets first later);
  files_kept = λ f m spared.
      rest.files_kept f (one.files_kept f m (IsSpared-first name f.project targets spared))
        (λ n. spared (inr n));
  chunks_left = λ c m.
      let (m', later) = rest.chunks_left c m in
      let (m0, first) = one.chunks_left c m' in
      (
        m0,
        λ f of target. elim (IsSpared-or_named name f.project) [
          | inr named ↦ first f of (inl named)
          | inl spared ↦ elim target [
            | inl named ↦ first f of (inl named)
            | inr other ↦ later f (one.files_kept f of spared) other
          ]
        ],
      );
  chunks_kept = λ c m kept.
      rest.chunks_kept c
        (one.chunks_kept c m (λ f of target. elim target [
          | inl named ↦ kept f of (inl named)
          | inr nowhere ↦ absurd nowhere
        ]))
        (λ f of target. kept f (one.files_left f of).0 (inr target));
}

passes-IsSpared : (name k : String) → not (str_eq k name) ≡ true → IsSpared (name ∷ []) k
passes-IsSpared name k pass (inl e) = absurd (ground (arith, pass, (eq_iff k name).1 (sym e)))
passes-IsSpared name k pass (inr m) = absurd m

IsSpared-passes : (name k : String) → IsSpared (name ∷ []) k → not (str_eq k name) ≡ true
IsSpared-passes name k spared = elim (Bool-cases (str_eq k name)) [
  | inl same ↦ absurd (spared (inl (sym ((eq_iff k name).0 same))))
  | inr differs ↦ rw differs refl
]

module _ {V : Type 0} (x : Externals V) where
  pub delete_project-store :
      (s t : Stores V) (name : String)
      → delete_project x s name ≡ ok t
      → t.store ≡ ChunkStore.delete_project s.store name
  unfolding delete_project
  delete_project-store s t name run =
      let (es, freeing, done) =
        >>=-eq-ok (free_files x s.store s.embed (list_files s.store name)) _ run in
      ap (λ (k : Stores V). k.store) (sym (ok_injective _ _ done))

  -- What the deletion of a project leaves, where its chunks are known to be gone.
  pub delete_project-Evicted :
      (s t : Stores V) (name : String)
      → delete_project x s name ≡ ok t
      → ((c : Chunk)
          → In c t.store.chunks
          → In c s.store.chunks × ((f : FileRecord) → IsFileOf s.store name f → c.file_id ≢ f.id))
      → ((c : Chunk)
          → In c s.store.chunks
          → ((f : FileRecord) → IsFileOf s.store name f → c.file_id ≢ f.id)
          → In c t.store.chunks)
      → Evicted s.store t.store (name ∷ [])
  unfolding ChunkStore.delete_project
  delete_project-Evicted s t name run left kept =
      let store = delete_project-store s t name run in
      let projects = ap (λ (k : ChunkStore). k.projects) store in
      let files = ap (λ (k : ChunkStore). k.files) store in
      record {
        projects_left = λ p m.
            let (inside, pass) =
              In-select (λ (q : Project). not (str_eq q.name name)) p s.store.projects
                (subst (In p) projects m) in
            (inside, passes-IsSpared name p.name pass);
        projects_kept = λ p m spared. subst (In p) (sym projects) (
            select-In (λ (q : Project). not (str_eq q.name name)) p s.store.projects m
              (IsSpared-passes name p.name spared));
        files_left = λ f m.
            let (inside, pass) =
              In-select (λ (g : FileRecord). not (str_eq g.project name)) f s.store.files
                (subst (In f) files m) in
            (inside, passes-IsSpared name f.project pass);
        files_kept = λ f m spared. subst (In f) (sym files) (
            select-In (λ (g : FileRecord). not (str_eq g.project name)) f s.store.files m
              (IsSpared-passes name f.project spared));
        chunks_left = λ c m.
            let (inside, away) = left c m in
            (
              inside,
              λ f of target. elim target [
                | inl named ↦ away f (of, sym named)
                | inr nowhere ↦ absurd nowhere
              ],
            );
        chunks_kept = λ c m away. kept c m (λ f (of, named). away f of (inl (sym named)));
      }
