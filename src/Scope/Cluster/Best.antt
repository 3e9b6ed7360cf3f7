-- ===== src/Scope/Cluster/Best.antt =====
-- `cluster_paths` of scope/cluster.py, and the directory that it picks.
use mathlib.Core.Path.{subst}
use longctx.Base.{
  ℕ, ◌≤◌, ◌<◌, ◌≡◌, refl, sym, ap, ◌∙◌, Bool, true, ◌&&◌, ◌⊎◌, inl, inr, Bool-cases, Option, none,
  some, List, [], ◌∷◌, map, length, select, In, In-map, map-In, In-select, select-In, In-order_with,
  order_with-In, order_with, arith, ltb, leb,
}
use longctx.Base.Result.{ok}
use longctx.Base.Ordered.{IsOrder, IsOrdered, order_with-IsOrdered}
use longctx.Scope.Paths.{FilePath, is_under, path_str, text_leb, text_leb_total, text_leb_trans}
use longctx.Scope.Cluster.{
  ClusterResult, unique_from, by_ancestor, better, qualifying, cluster_paths,
}
use longctx.Scope.Cluster.Files.{
  HasDistinctPaths, files_of, unique_from-HasDistinctPaths, files_of-by_ancestor,
}
use longctx.Scope.Cluster.Table.{by_ancestor-HasDistinctDirs, files_of_entry, entry_of_files}

-- How many of the paths lie under the directory.
abbrev pub n_under : FilePath → List FilePath → ℕ
n_under a ps = length (select (is_under a) ps)

better-IsOrder : IsOrder better
better-IsOrder = record {
  total = λ a b h. ground (arith, text_leb_total (path_str b.0) (path_str a.0));
  trans = λ a b c h k. ground (arith, text_leb_trans (path_str c.0) (path_str b.0) (path_str a.0));
}

-- The files of a directory are counted over the distinct paths; the directory is picked by their number,
-- then by its depth, then by its text.
pub record IsBest (unique : List FilePath) (min_files min_depth : ℕ) (r : ClusterResult)
    : Type 0 where
  pub counted : r.unique_files ≡ n_under r.ancestor unique
  pub enough : min_files ≤ r.unique_files
  pub deep : min_depth ≤ length r.ancestor
  pub best :
      (a : FilePath)
      → min_files ≤ n_under a unique
      → min_depth ≤ length a
      → (n_under a unique < r.unique_files)
        ⊎ ((n_under a unique ≡ r.unique_files)
            × ((length a < length r.ancestor)
                ⊎ ((length a ≡ length r.ancestor)
                    × (text_leb (path_str a) (path_str r.ancestor) ≡ true))))

module _ (unique : List FilePath) (distinct : HasDistinctPaths unique) (min_files min_depth : ℕ)
    (pos : 1 ≤ min_files) where
  counted_files : (a : FilePath) → files_of a (by_ancestor unique []) ≡ select (is_under a) unique
  counted_files a = files_of-by_ancestor a [] unique [] distinct refl

  qualifying-counted :
      (c : FilePath × ℕ)
      → In c (qualifying unique min_files min_depth)
      → (c.1 ≡ n_under c.0 unique) × (min_files ≤ c.1) × (min_depth ≤ length c.0)
  unfolding qualifying
  qualifying-counted c m =
      let (m', pass) =
        In-select (λ c. leb min_files c.1 && leb min_depth (length c.0)) c
          (map (λ (c : FilePath × List FilePath). (c.0, length c.1)) (by_ancestor unique [])) m in
      let (entry, at, e) =
        In-map (λ (c : FilePath × List FilePath). (c.0, length c.1)) c (by_ancestor unique []) m' in
      let held : files_of entry.0 (by_ancestor unique []) ≡ entry.1 =
        files_of_entry entry (by_ancestor unique []) (by_ancestor-HasDistinctDirs unique [] tt)
          at in
      let size : c.1 ≡ n_under c.0 unique =
        rw (← e) (ap length (sym held ∙ counted_files entry.0)) in
      (size, ground arith, ground arith)

  counted-qualifying :
      (a : FilePath)
      → min_files ≤ n_under a unique
      → min_depth ≤ length a
      → In (a, n_under a unique) (qualifying unique min_files min_depth)
  unfolding qualifying
  counted-qualifying a enough deep =
      let at : In (a, select (is_under a) unique) (by_ancestor unique []) =
        entry_of_files a (select (is_under a) unique) (by_ancestor unique []) (counted_files a)
          (omega arith) in
      select-In (λ c. leb min_files c.1 && leb min_depth (length c.0)) (a, n_under a unique)
        (map (λ (c : FilePath × List FilePath). (c.0, length c.1)) (by_ancestor unique []))
        (map-In (λ (c : FilePath × List FilePath). (c.0, length c.1))
          (a, select (is_under a) unique) (by_ancestor unique []) at)
        (ground arith)

length-select-le :
    {A : Type 0} (test : A → Bool) (xs : List A) → length (select test xs) ≤ length xs
length-select-le test [] = omega arith
length-select-le test (x ∷ xs) = ground (arith, length-select-le test xs)

-- What the answer says: the best directory, or that none has enough files at enough depth.
abbrev pub Picked : List FilePath → ℕ → ℕ → Option ClusterResult → Type 0
Picked unique min_files min_depth none =
    (a : FilePath) → (n_under a unique < min_files) ⊎ (length a < min_depth)
Picked unique min_files min_depth (some r) = IsBest unique min_files min_depth r

better_cases :
    (a b : FilePath) (n m : ℕ)
    → better (b, m) (a, n) ≡ true
    → (n < m)
      ⊎ ((n ≡ m)
          × ((length a < length b)
              ⊎ ((length a ≡ length b) × (text_leb (path_str a) (path_str b) ≡ true))))
better_cases a b n m h = elim (Bool-cases (ltb n m)) [
  | inl lt ↦ inl (ground arith)
  | inr ge ↦ inr (
    ground arith,
    elim (Bool-cases (ltb (length a) (length b))) [
      | inl shallow ↦ inl (ground arith)
      | inr deep ↦ inr (ground arith, ground arith)
    ],
  )
]

abbrev answer : ℕ → List (FilePath × ℕ) → Option ClusterResult
answer n os = elim os [
  | [] ↦ none
  | best ∷ _ ↦ some (record { ancestor = best.0; unique_files = best.1; total_paths = n })
]

answer-Picked :
    (unique : List FilePath) (min_files min_depth : ℕ)
    → HasDistinctPaths unique
    → 1 ≤ min_files
    → (os : List (FilePath × ℕ)) → order_with better (qualifying unique min_files min_depth) ≡ os
    → Picked unique min_files min_depth (answer (length unique) os)
answer-Picked unique min_files min_depth distinct pos [] e = λ a.
    elim (Bool-cases (leb min_files (n_under a unique) && leb min_depth (length a))) [
      | inl both ↦
          let at : In (a, n_under a unique)
              (order_with better (qualifying unique min_files min_depth)) =
            order_with-In better (a, n_under a unique) (qualifying unique min_files min_depth)
              (counted-qualifying unique distinct min_files min_depth pos a (ground arith)
                (ground arith)) in
          absurd (rw e at at)
      | inr short ↦ elim (Bool-cases (leb min_files (n_under a unique))) [
        | inl enough ↦ inr (ground arith)
        | inr few ↦ inl (ground arith)
      ]
    ]
answer-Picked unique min_files min_depth distinct pos (best ∷ os) e =
    let here : In best (order_with better (qualifying unique min_files min_depth)) =
      rw e (inl refl) in
    let (size, enough, deep) =
      qualifying-counted unique distinct min_files min_depth pos best
        (In-order_with better best (qualifying unique min_files min_depth) here) in
    let ordered : IsOrdered better (best ∷ os) =
      rw e at (order_with-IsOrdered better-IsOrder (qualifying unique min_files min_depth)) in
    record {
      counted = size;
      enough = enough;
      deep = deep;
      best = λ a many below.
          let at : In (a, n_under a unique)
              (order_with better (qualifying unique min_files min_depth)) =
            order_with-In better (a, n_under a unique) (qualifying unique min_files min_depth)
              (counted-qualifying unique distinct min_files min_depth pos a many below) in
          let at' : In (a, n_under a unique) (best ∷ os) = rw e at at in
          elim at' [
            | inl same ↦
                let self : better best best ≡ true = elim (Bool-cases (better best best)) [
                  | inl y ↦ y
                  | inr n ↦ better-IsOrder.total best best n
                ] in
                better_cases a best.0 (n_under a unique) best.1
                  (subst (λ k. better best k ≡ true) same self)
            | inr later ↦
                better_cases a best.0 (n_under a unique) best.1
                  (ordered.0 (a, n_under a unique) later)
          ];
    }

-- For bounds of at least one, `cluster_paths` succeeds. It returns a directory that has enough of the
-- distinct paths under it, at enough depth, and no such directory has more, nor as many and is deeper,
-- nor is as deep and comes later as a text; or it returns none, and there is no such directory.
pub cluster_paths-Picked :
    (paths : List FilePath) (min_files min_depth : ℕ)
    → 1 ≤ min_files
    → 1 ≤ min_depth
    → (picked : Option ClusterResult) × (cluster_paths paths min_files min_depth ≡ ok picked)
      × Picked (unique_from [] paths) min_files min_depth picked
unfolding cluster_paths
cluster_paths-Picked paths min_files min_depth pos pos' =
    let unique = unique_from [] paths in
    let c1 : leb 1 min_files ≡ true = ground arith in
    let c2 : leb 1 min_depth ≡ true = ground arith in
    elim (Bool-cases (ltb (length unique) min_files)) [
      | inl few ↦ (
        none,
        rw (c1, c2, few) refl,
        λ a. inl (ground (arith, length-select-le (is_under a) unique)),
      )
      | inr many ↦ (
        answer (length unique) (order_with better (qualifying unique min_files min_depth)),
        rw (c1, c2, many) refl,
        answer-Picked unique min_files min_depth (unique_from-HasDistinctPaths [] paths tt) pos
            (order_with better (qualifying unique min_files min_depth)) refl,
      )
    ]
