-- ===== src/Scope/Paths.antt =====
-- The `pathlib.Path` of scope/cluster.py and scope/tracker.py: an absolute POSIX path, by its parts.
use Prim.Native.Char.{code}
use longctx.Base.{
  ℕ, ◌≡◌, ◌↔◌, refl, String, Bool, true, false, ◌&&◌, ◌||◌, List, [], ◌∷◌, ◌++◌, ltb, ◌==◌, str_eq,
  eq_iff, arith,
}

-- `p.parts`: the root first.
abbrev pub FilePath : Type 0
FilePath = List String

abbrev pub path_eq : FilePath → FilePath → Bool
path_eq [] [] = true
path_eq [] (y ∷ ys) = false
path_eq (x ∷ xs) [] = false
path_eq (x ∷ xs) (y ∷ ys) = str_eq x y && path_eq xs ys

abbrev pub contains_path : FilePath → List FilePath → Bool
contains_path a [] = false
contains_path a (p ∷ ps) = path_eq p a || contains_path a ps

abbrev parents_from : List String → List String → List FilePath → List FilePath
parents_from above [] found = found
parents_from above (x ∷ xs) found = parents_from (above ++ x ∷ []) xs (above ∷ found)

-- `p.parents`: the directories that hold the path, the nearest first.
unfoldable pub parents : FilePath → List FilePath
parents [] = []
parents (x ∷ xs) = parents_from (x ∷ []) xs []

-- Whether the path lies below the directory.
abbrev pub is_under : FilePath → FilePath → Bool
is_under dir p = contains_path dir (parents p)

abbrev pub codes : String → List ℕ
codes String.[] = []
codes (String.◌∷◌ c s) = code c ∷ codes s

abbrev joined : List String → List ℕ
joined [] = []
joined (x ∷ []) = codes x
joined (x ∷ y ∷ ys) = codes x ++ (47 ∷ joined (y ∷ ys))

-- `str(p)`, by its code points.
unfoldable pub path_str : FilePath → List ℕ
path_str [] = []
path_str (root ∷ xs) = codes root ++ joined xs

-- `s <= t`, as Python compares texts.
abbrev pub text_leb : List ℕ → List ℕ → Bool
text_leb [] t = true
text_leb (a ∷ s) [] = false
text_leb (a ∷ s) (b ∷ t) = ltb a b || a == b && text_leb s t

pub path_eq_iff : (p q : FilePath) → (path_eq p q ≡ true) ↔ (p ≡ q)
path_eq_iff [] [] = ground arith
path_eq_iff [] (y ∷ ys) = ground arith
path_eq_iff (x ∷ xs) [] = ground arith
path_eq_iff (x ∷ xs) (y ∷ ys) = ground (arith, eq_iff x y, path_eq_iff xs ys)

pub path_eq_self : (p : FilePath) → path_eq p p ≡ true
path_eq_self p = (path_eq_iff p p).1 refl

pub text_leb_total : (s t : List ℕ) → text_leb s t ≡ false → text_leb t s ≡ true
text_leb_total [] t h = ground arith
text_leb_total (a ∷ s) [] h = refl
text_leb_total (a ∷ s) (b ∷ t) h = ground (arith, text_leb_total s t)

pub text_leb_trans :
    (s t u : List ℕ) → text_leb s t ≡ true → text_leb t u ≡ true → text_leb s u ≡ true
text_leb_trans [] t u h k = refl
text_leb_trans (a ∷ s) [] u h k = absurd (ground arith)
text_leb_trans (a ∷ s) (b ∷ t) [] h k = absurd (ground arith)
text_leb_trans (a ∷ s) (b ∷ t) (c ∷ u) h k = ground (arith, text_leb_trans s t u)
