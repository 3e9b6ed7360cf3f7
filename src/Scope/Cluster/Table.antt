-- ===== src/Scope/Cluster/Table.antt =====
-- The entries of the map from the ancestors to their files: one for each ancestor.
use longctx.Base.{
  ◌≤◌, ◌≡◌, refl, ap, ◌∙◌, true, false, ◌||◌, inl, inr, Bool-cases, List, [], ◌∷◌, map, length, In,
  arith,
}
use longctx.Scope.Paths.{FilePath, path_eq, contains_path, parents, path_eq_iff, path_eq_self}
use longctx.Scope.Cluster.{add_file, add_parents, by_ancestor}
use longctx.Scope.Cluster.Files.{files_of}

abbrev pub Table : Type 0
Table = List (FilePath × List FilePath)

abbrev pub dirs : Table → List FilePath
dirs = map (λ (c : FilePath × List FilePath). c.0)

abbrev pub HasDistinctDirs : Table → Type 0
HasDistinctDirs [] = Unit
HasDistinctDirs ((d, fs) ∷ m) = (contains_path d (dirs m) ≡ false) × HasDistinctDirs m

contains-dirs-add_file :
    (a dir p : FilePath) (m : Table)
    → contains_path a (dirs (add_file dir p m)) ≡ (path_eq dir a || contains_path a (dirs m))
contains-dirs-add_file a dir p [] = ground arith
contains-dirs-add_file a dir p ((d, fs) ∷ m) = elim (Bool-cases (path_eq d dir)) [
  | inl same ↦ let e : d ≡ dir = (path_eq_iff d dir).0 same in rw same (rw e (ground arith))
  | inr other ↦ rw other (ground (arith, contains-dirs-add_file a dir p m))
]

add_file-HasDistinctDirs :
    (dir p : FilePath) (m : Table) → HasDistinctDirs m → HasDistinctDirs (add_file dir p m)
add_file-HasDistinctDirs dir p [] h = (refl, tt)
add_file-HasDistinctDirs dir p ((d, fs) ∷ m) (new, rest) = elim (Bool-cases (path_eq d dir)) [
  | inl same ↦ rw same (new, rest)
  | inr other ↦
      let apart : path_eq dir d ≡ false =
        ground (arith, path_eq_iff dir d, path_eq_iff d dir, path_eq_self d) in
      rw other
        (ground (arith, contains-dirs-add_file d dir p m), add_file-HasDistinctDirs dir p m rest)
]

add_parents-HasDistinctDirs :
    (p : FilePath) (ds : List FilePath) (m : Table)
    → HasDistinctDirs m
    → HasDistinctDirs (add_parents p ds m)
add_parents-HasDistinctDirs p [] m h = h
add_parents-HasDistinctDirs p (dir ∷ ds) m h =
    add_parents-HasDistinctDirs p ds (add_file dir p m) (add_file-HasDistinctDirs dir p m h)

pub by_ancestor-HasDistinctDirs :
    (ps : List FilePath) (m : Table) → HasDistinctDirs m → HasDistinctDirs (by_ancestor ps m)
by_ancestor-HasDistinctDirs [] m h = h
by_ancestor-HasDistinctDirs (p ∷ ps) m h =
    by_ancestor-HasDistinctDirs ps (add_parents p (parents p) m)
      (add_parents-HasDistinctDirs p (parents p) m h)

In-dirs : (c : FilePath × List FilePath) (m : Table) → In c m → contains_path c.0 (dirs m) ≡ true
In-dirs c [] h = absurd h
In-dirs c ((d, fs) ∷ m) (inl e) =
    let same : path_eq d c.0 ≡ true =
      (path_eq_iff d c.0).1 (ap (λ (k : FilePath × List FilePath). k.0) e) in
    rw same refl
In-dirs c ((d, fs) ∷ m) (inr h) = ground (arith, In-dirs c m h)

pub files_of_entry :
    (c : FilePath × List FilePath) (m : Table) → HasDistinctDirs m → In c m → files_of c.0 m ≡ c.1
files_of_entry c [] distinct h = absurd h
files_of_entry c ((d, fs) ∷ m) distinct (inl e) =
    let same : path_eq d c.0 ≡ true =
      (path_eq_iff d c.0).1 (ap (λ (k : FilePath × List FilePath). k.0) e) in
    rw same (ap (λ (k : FilePath × List FilePath). k.1) e)
files_of_entry c ((d, fs) ∷ m) (new, rest) (inr h) =
    let apart : path_eq d c.0 ≡ false = elim (Bool-cases (path_eq d c.0)) [
      | inl y ↦
          let e : d ≡ c.0 = (path_eq_iff d c.0).0 y in
          let held : contains_path d (dirs m) ≡ true = rw e (In-dirs c m h) in absurd (ground arith)
      | inr n ↦ n
    ] in
    rw apart (files_of_entry c m rest h)

pub entry_of_files :
    (a : FilePath) (files : List FilePath) (m : Table)
    → files_of a m ≡ files
    → 1 ≤ length files
    → In (a, files) m
entry_of_files a files [] e h = absurd (omega (arith, ap length e))
entry_of_files a files ((d, fs) ∷ m) e h = elim (Bool-cases (path_eq d a)) [
  | inl here ↦
      let e' : fs ≡ files = rw here at e in
      let same : d ≡ a = (path_eq_iff d a).0 here in
      inl (ap (λ k. (k, fs)) same ∙ ap (λ k. (a, k)) e')
  | inr there ↦ let e' : files_of a m ≡ files = rw there at e in inr (entry_of_files a files m e' h)
]
