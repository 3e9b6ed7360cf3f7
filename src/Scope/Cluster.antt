-- ===== src/Scope/Cluster.antt =====
-- scope/cluster.py: the directory that the most of the paths lie under.
pub mod Files
pub mod Table
pub mod Best
use longctx.Base.{
  ℕ, Bool, true, false, not, ◌&&◌, ◌||◌, Option, none, some, List, [], ◌∷◌, ◌++◌, map, ltb, leb,
  ◌==◌, if◌then◌else◌, length, select, order_with,
}
use longctx.Base.Result.{Result, ok, value_error, ◌>>=◌, ◌>>◌, require}
use longctx.Scope.Paths.{FilePath, path_eq, contains_path, parents, path_str, text_leb}

pub record ClusterResult : Type 0 where
  pub ancestor : FilePath
  pub unique_files : ℕ
  pub total_paths : ℕ

-- `seen.add(p)`, and the loop that drops what was seen.
abbrev pub add_path : FilePath → List FilePath → List FilePath
add_path p seen = if contains_path p seen then seen else seen ++ p ∷ []

abbrev pub unique_from : List FilePath → List FilePath → List FilePath
unique_from seen [] = seen
unique_from seen (p ∷ ps) = unique_from (add_path p seen) ps

-- `by_ancestor[parent].add(p)`, and the loops around it.
abbrev pub add_file :
    FilePath → FilePath → List (FilePath × List FilePath) → List (FilePath × List FilePath)
add_file dir p [] = (dir, p ∷ []) ∷ []
add_file dir p ((d, files) ∷ m) =
    let rest = add_file dir p m in
    if path_eq d dir then (d, add_path p files) ∷ m else (d, files) ∷ rest

abbrev pub add_parents :
    FilePath → List FilePath → List (FilePath × List FilePath) → List (FilePath × List FilePath)
add_parents p [] m = m
add_parents p (dir ∷ dirs) m = add_parents p dirs (add_file dir p m)

abbrev pub by_ancestor :
    List FilePath → List (FilePath × List FilePath) → List (FilePath × List FilePath)
by_ancestor [] m = m
by_ancestor (p ∷ ps) m = by_ancestor ps (add_parents p (parents p) m)

-- The order of the keys `(files, depth, str(ancestor))`, with the greatest first.
abbrev pub better : FilePath × ℕ → FilePath × ℕ → Bool
better (a, n) (b, m) =
    ltb m n
    || m == n
      && (ltb (length b) (length a) || length b == length a && text_leb (path_str b) (path_str a))

-- The ancestors with enough files and of enough depth, each with the number of its files.
unfoldable pub qualifying : List FilePath → ℕ → ℕ → List (FilePath × ℕ)
qualifying unique min_files min_depth =
    select (λ c. leb min_files c.1 && leb min_depth (length c.0))
      (map (λ (c : FilePath × List FilePath). (c.0, length c.1)) (by_ancestor unique []))

unfoldable pub cluster_paths : List FilePath → ℕ → ℕ → Result (Option ClusterResult)
cluster_paths paths min_files min_depth = do
  require (leb 1 min_files) value_error
  require (leb 1 min_depth) value_error
  let unique = unique_from [] paths
  ok (
      if ltb (length unique) min_files
      then none
      else elim (order_with better (qualifying unique min_files min_depth)) [
        | [] ↦ none
        | best ∷ _ ↦
            some (record { ancestor = best.0; unique_files = best.1; total_paths = length unique })
      ])

-- `all_clusters`: no bound on the depth.
unfoldable pub all_clusters : List FilePath → ℕ → Result (List ClusterResult)
all_clusters paths min_files = do
  require (leb 1 min_files) value_error
  let unique = unique_from [] paths
  ok (
      if ltb (length unique) min_files
      then []
      else map (λ c. record { ancestor = c.0; unique_files = c.1; total_paths = length unique })
          (order_with better (qualifying unique min_files 0)))
