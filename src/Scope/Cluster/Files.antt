-- ===== src/Scope/Cluster/Files.antt =====
-- The map from the ancestors to their files, against a count over the paths.
use mathlib.Core.List.{append-nil, append_assoc}
use longctx.Base.{
  ◌≡◌, refl, sym, ap, ◌∙◌, Bool, true, false, ◌||◌, inl, inr, Bool-cases, List, [], ◌∷◌, ◌++◌,
  select, if◌then◌else◌, arith,
}
use longctx.Scope.Paths.{
  FilePath, path_eq, contains_path, is_under, parents, path_eq_iff, path_eq_self,
}
use longctx.Scope.Cluster.{add_path, unique_from, add_file, add_parents, by_ancestor}

abbrev pub HasDistinctPaths : List FilePath → Type 0
HasDistinctPaths [] = Unit
HasDistinctPaths (p ∷ ps) = (contains_path p ps ≡ false) × HasDistinctPaths ps

-- The files on record for a directory.
abbrev pub files_of : FilePath → List (FilePath × List FilePath) → List FilePath
files_of a [] = []
files_of a ((d, fs) ∷ m) = if path_eq d a then fs else files_of a m

contains_path-append :
    (a : FilePath) (ps qs : List FilePath)
    → contains_path a (ps ++ qs) ≡ (contains_path a ps || contains_path a qs)
contains_path-append a [] qs = refl
contains_path-append a (p ∷ ps) qs = ground (arith, contains_path-append a ps qs)

contains_path-add :
    (a p : FilePath) (ps : List FilePath)
    → contains_path a (add_path p ps) ≡ (contains_path a ps || path_eq p a)
contains_path-add a p ps = elim (Bool-cases (contains_path p ps)) [
  | inl old ↦ rw old (elim (Bool-cases (path_eq p a)) [
    | inl e ↦
        let same : p ≡ a = (path_eq_iff p a).0 e in
        let held : contains_path a ps ≡ true = rw same at old in ground arith
    | inr ne ↦ ground arith
  ])
  | inr new ↦ rw new (contains_path-append a ps (p ∷ []) ∙ ground arith)
]

-- To add a path twice is to add it once.
add_path_twice : (p : FilePath) (ps : List FilePath) → add_path p (add_path p ps) ≡ add_path p ps
add_path_twice p ps =
    let held : contains_path p (add_path p ps) ≡ true =
      ground (arith, contains_path-add p p ps, path_eq_self p) in
    rw held refl

snoc-HasDistinctPaths :
    (p : FilePath) (ps : List FilePath)
    → HasDistinctPaths ps
    → contains_path p ps ≡ false
    → HasDistinctPaths (ps ++ p ∷ [])
snoc-HasDistinctPaths p [] h new = (refl, tt)
snoc-HasDistinctPaths p (q ∷ qs) (first, rest) new = (
  ground
      (arith, contains_path-append q qs (p ∷ []), path_eq_iff p q, path_eq_iff q p, path_eq_self p),
  snoc-HasDistinctPaths p qs rest (ground arith),
)

pub unique_from-HasDistinctPaths :
    (seen ps : List FilePath) → HasDistinctPaths seen → HasDistinctPaths (unique_from seen ps)
unique_from-HasDistinctPaths seen [] h = h
unique_from-HasDistinctPaths seen (p ∷ ps) h = elim (Bool-cases (contains_path p seen)) [
  | inl old ↦ rw old (unique_from-HasDistinctPaths seen ps h)
  | inr new ↦
      rw new (unique_from-HasDistinctPaths (seen ++ p ∷ []) ps (snoc-HasDistinctPaths p seen h new))
]

files_of-add_file :
    (a dir p : FilePath) (m : List (FilePath × List FilePath))
    → files_of a (add_file dir p m)
      ≡ (if path_eq dir a then add_path p (files_of a m) else files_of a m)
files_of-add_file a dir p [] = ground arith
files_of-add_file a dir p ((d, fs) ∷ m) = elim (Bool-cases (path_eq d dir)) [
  | inl same ↦
      let e : d ≡ dir = (path_eq_iff d dir).0 same in
      rw (same, e) (elim (Bool-cases (path_eq dir a)) [ inl y ↦ rw y refl | inr n ↦ rw n refl ])
  | inr other ↦ rw other (elim (Bool-cases (path_eq d a)) [
    | inl here ↦
        let e : d ≡ a = (path_eq_iff d a).0 here in
        let apart : path_eq dir a ≡ false =
          ground (arith, path_eq_iff dir a, path_eq_iff d dir, path_eq_self d) in
        rw (here, apart) refl
    | inr there ↦ rw there (files_of-add_file a dir p m)
  ])
]

files_of-add_parents :
    (a p : FilePath) (dirs : List FilePath) (m : List (FilePath × List FilePath))
    → files_of a (add_parents p dirs m)
      ≡ (if contains_path a dirs then add_path p (files_of a m) else files_of a m)
files_of-add_parents a p [] m = refl
files_of-add_parents a p (dir ∷ dirs) m =
    files_of-add_parents a p dirs (add_file dir p m) ∙ elim (Bool-cases (path_eq dir a)) [
      | inl here ↦ rw (files_of-add_file a dir p m) (
          rw here (elim (Bool-cases (contains_path a dirs)) [
            | inl again ↦ rw again (add_path_twice p (files_of a m))
            | inr once ↦ rw once refl
          ]))
      | inr there ↦ rw (files_of-add_file a dir p m) (rw there refl)
    ]

select_snoc :
    (test : FilePath → Bool) (p : FilePath) (ps : List FilePath)
    → select test (ps ++ p ∷ []) ≡ (if test p then select test ps ++ p ∷ [] else select test ps)
select_snoc test p [] = refl
select_snoc test p (q ∷ qs) = elim (Bool-cases (test q)) [
  | inl pass ↦ rw pass (
      ap (◌∷◌ q) (select_snoc test p qs)
      ∙ elim (Bool-cases (test p)) [ inl y ↦ rw y refl | inr n ↦ rw n refl ])
  | inr skip ↦ rw skip (select_snoc test p qs)
]

contains_path-select :
    (test : FilePath → Bool) (p : FilePath) (ps : List FilePath)
    → contains_path p ps ≡ false
    → contains_path p (select test ps) ≡ false
contains_path-select test p [] h = refl
contains_path-select test p (q ∷ qs) h = ground (arith, contains_path-select test p qs)

apart_from_rest :
    (p : FilePath) (done ps : List FilePath)
    → HasDistinctPaths (done ++ p ∷ ps)
    → contains_path p done ≡ false
apart_from_rest p [] ps h = refl
apart_from_rest p (q ∷ qs) ps (new, rest) = ground (
  arith,
  apart_from_rest p qs ps rest,
  contains_path-append q qs (p ∷ ps),
  path_eq_iff q p,
  path_eq_iff p q,
  path_eq_self p,
)

-- The map counts each of the distinct paths once, under each directory that it lies in.
pub files_of-by_ancestor :
    (a : FilePath) (done ps : List FilePath) (m : List (FilePath × List FilePath))
    → HasDistinctPaths (done ++ ps)
    → files_of a m ≡ select (is_under a) done
    → files_of a (by_ancestor ps m) ≡ select (is_under a) (done ++ ps)
files_of-by_ancestor a done [] m h e = e ∙ ap (select (is_under a)) (sym (append-nil done))
files_of-by_ancestor a done (p ∷ ps) m h e =
    let new : contains_path p (select (is_under a) done) ≡ false =
      contains_path-select (is_under a) p done (apart_from_rest p done ps h) in
    let step : files_of a (add_parents p (parents p) m) ≡ select (is_under a) (done ++ p ∷ []) =
      files_of-add_parents a p (parents p) m
      ∙ rw e (rw new (sym (select_snoc (is_under a) p done))) in
    let joined : (done ++ p ∷ []) ++ ps ≡ done ++ p ∷ ps = append_assoc done (p ∷ []) ps in
    files_of-by_ancestor a (done ++ p ∷ []) ps (add_parents p (parents p) m) (rw joined h) step
    ∙ ap (select (is_under a)) joined
