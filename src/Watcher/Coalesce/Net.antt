-- ===== src/Watcher/Coalesce/Net.antt =====
-- watcher.py: what the events that `_coalesce_events` leaves say of a path.
use mathlib.Core.Path.{subst}
use longctx.Base.{
  ℕ, ◌≤◌, ◌≡◌, refl, sym, ap, ◌∙◌, String, Bool, true, false, not, ◌&&◌, ◌⊎◌, inl, inr, Bool-cases,
  Option, none, some, List, [], ◌∷◌, map, str_eq, eq_iff, if◌then◌else◌, length, select, In,
  In-select, In-any, arith, any, ◌==◌,
}
use longctx.Watcher.{WatcherEvent}
use longctx.Watcher.Coalesce.{
  is_create, is_delete, per_path_from, upgrade, rename_event, renamed, fold_rename, coalesce_events,
}
use longctx.Watcher.Coalesce.Phases.{
  IsRaw, effect, net, touches, has_path, HasDistinctPaths, str_eq_self, word-per_path,
  per_path-HasDistinctPaths, per_path-IsRaw,
}
use longctx.Watcher.Coalesce.Words.{
  dispatched, OneTouch, net-dispatched, upgraded-HasDistinctPaths, upgraded-IsRaw, net-upgraded,
  net-In, net-word,
}

-- The third phase: the new path stands for both.
net-renamed_other :
    (p : String) (said : Option Bool) (old new : WatcherEvent) (m : List WatcherEvent)
    → IsRaw m
    → str_eq old.path p ≡ false
    → str_eq new.path p ≡ false
    → net p said (renamed old new m) ≡ net p said m
net-renamed_other p said old new [] raw a b = refl
net-renamed_other p said old new (e ∷ es) (here, rest) a b =
    elim (Bool-cases (str_eq e.path old.path)) [
      | inl gone ↦
          let eq : e.path ≡ old.path = (eq_iff e.path old.path).0 gone in
          let off : str_eq e.path p ≡ false = rw eq a in
          let miss : effect p e said ≡ said = ground arith in
          rw gone (net-renamed_other p said old new es rest a b ∙ ap (λ k. net p k es) (sym miss))
      | inr kept ↦ elim (Bool-cases (str_eq e.path new.path)) [
        | inl moved ↦
            let eq : e.path ≡ new.path = (eq_iff e.path new.path).0 moved in
            let off : str_eq e.path p ≡ false = rw eq b in
            let miss : effect p e said ≡ said = ground arith in
            let miss' : effect p (rename_event old new) said ≡ said = ground arith in
            rw kept (
              rw moved (
                ap (λ k. net p k (renamed old new es)) miss'
                ∙ net-renamed_other p said old new es rest a b
                ∙ ap (λ k. net p k es) (sym miss)))
        | inr same ↦ rw kept (rw same (net-renamed_other p (effect p e said) old new es rest a b))
      ]
    ]

net-renamed :
    (p : String) (said : Option Bool) (old new : WatcherEvent) (m : List WatcherEvent) (b : Bool)
    → IsRaw m
    → str_eq old.path new.path ≡ false
    → effect p (rename_event old new) none ≡ some b
    → net p said (renamed old new m) ≡ (if any (has_path new.path) m then some b else said)
net-renamed p said old new [] b raw apart h = refl
net-renamed p said old new (e ∷ es) b (here, rest) apart h =
    elim (Bool-cases (str_eq e.path old.path)) [
      | inl gone ↦
          let eq : e.path ≡ old.path = (eq_iff e.path old.path).0 gone in
          let off : str_eq e.path new.path ≡ false = rw eq apart in
          rw (gone, off) (net-renamed p said old new es b rest apart h)
      | inr kept ↦ elim (Bool-cases (str_eq e.path new.path)) [
        | inl moved ↦
            let eq : e.path ≡ new.path = (eq_iff e.path new.path).0 moved in
            let word' : effect p (rename_event old new) said ≡ some b = ground arith in
            rw kept (
              rw moved (
                ap (λ k. net p k (renamed old new es)) word'
                ∙ net-renamed p (some b) old new es b rest apart h
                ∙ elim (Bool-cases (any (has_path new.path) es)) [
                  | inl y ↦ rw y refl
                  | inr n ↦ rw n refl
                ]))
        | inr same ↦
            let off : str_eq e.path p ≡ false = ground (
              arith,
              eq_iff e.path p,
              eq_iff e.path new.path,
              eq_iff e.path old.path,
              eq_iff new.path p,
              eq_iff old.path p,
            ) in
            let miss : effect p e said ≡ said = ground arith in
            rw kept (
              rw same (
                ap (λ k. net p k (renamed old new es)) miss
                ∙ net-renamed p said old new es b rest apart h))
      ]
    ]

n_paths : String → List WatcherEvent → ℕ
n_paths p m = length (select (has_path p) m)

n_paths_absent : (p : String) (m : List WatcherEvent) → any (has_path p) m ≡ false → n_paths p m ≡ 0
unfolding n_paths
n_paths_absent p [] h = refl
n_paths_absent p (e ∷ es) h = ground (arith, n_paths_absent p es)

n_paths-le : (p : String) (m : List WatcherEvent) → HasDistinctPaths m → n_paths p m ≤ 1
unfolding n_paths
n_paths-le p [] h = omega arith
n_paths-le p (e ∷ es) (new, rest) = elim (Bool-cases (str_eq e.path p)) [
  | inl same ↦
      let eq : e.path ≡ p = (eq_iff e.path p).0 same in
      let new' : any (has_path p) es ≡ false = rw eq at new in
      rw same (ground (arith, n_paths_absent p es new'))
  | inr other ↦ rw other (n_paths-le p es rest)
]

raw_touches :
    (p : String) (m : List WatcherEvent) → IsRaw m → length (select (touches p) m) ≡ n_paths p m
unfolding n_paths
raw_touches p [] raw = refl
raw_touches p (e ∷ es) (here, rest) = ground (arith, raw_touches p es rest)

renamed-touches :
    (p : String) (old new : WatcherEvent) (m : List WatcherEvent)
    → IsRaw m
    → str_eq old.path new.path ≡ false
    → length (select (touches p) (renamed old new m))
      ≤ n_paths (if str_eq old.path p then new.path else p) m
unfolding n_paths
renamed-touches p old new [] raw apart = omega arith
renamed-touches p old new (e ∷ es) (here, rest) apart =
    let ih = renamed-touches p old new es rest apart in
    elim (Bool-cases (str_eq e.path old.path)) [
      | inl gone ↦ rw gone (ground (arith, ih))
      | inr kept ↦ elim (Bool-cases (str_eq e.path new.path)) [
        | inl moved ↦
            let eq : e.path ≡ new.path = (eq_iff e.path new.path).0 moved in
            rw (kept, moved) (rw eq (ground (arith, ih, str_eq_self new.path)))
        | inr same ↦
            rw (kept, same)
              (ground (arith, ih, eq_iff e.path p, eq_iff old.path p, eq_iff e.path old.path))
      ]
    ]

List-cases : {A : Type 0} (xs : List A) → (xs ≡ []) ⊎ ((x : A) × (rest : List A) × (xs ≡ x ∷ rest))
List-cases [] = inl refl
List-cases (x ∷ xs) = inr (x, xs, refl)

-- A table with its paths as the keys, before the third phase and after it.
fold_rename_cases :
    (m : List WatcherEvent)
    → (fold_rename m ≡ m)
      ⊎ ((old : WatcherEvent) × (new : WatcherEvent) × In old m
          × (is_delete old ≡ true)
          × In new m
          × (is_create new ≡ true)
          × (str_eq old.path new.path ≡ false)
          × (fold_rename m ≡ renamed old new m))
unfolding fold_rename
fold_rename_cases m = elim (List-cases (select is_delete m)) [
  | inl none_gone ↦ inl (rw (none_gone, fold_rename) refl)
  | inr (old, olds, e) ↦ elim (List-cases (select is_create m)) [
    | inl none_new ↦ inl (rw (e, fold_rename) (rw (none_new, fold_rename) refl))
    | inr (new, news, e') ↦
        let (m1, gone) = In-select is_delete old m (rw e (inl refl)) in
        let (m2, made) = In-select is_create new m (rw e' (inl refl)) in
        elim (Bool-cases (length olds == 0 && length news == 0 && not (str_eq old.path new.path))) [
          | inl pair ↦ inr (
            old,
            new,
            m1,
            gone,
            m2,
            made,
            ground arith,
            rw (e, fold_rename) (rw (e', fold_rename) (rw pair refl)),
          )
          | inr more ↦ inl (rw (e, fold_rename) (rw (e', fold_rename) (rw more refl)))
        ]
  ]
]

net-fold_rename :
    (p : String) (m : List WatcherEvent)
    → IsRaw m
    → HasDistinctPaths m
    → (net p none (fold_rename m) ≡ net p none m) × OneTouch p (fold_rename m)
net-fold_rename p m raw distinct = elim (fold_rename_cases m) [
  | inl same ↦ rw same (refl, omega (arith, raw_touches p m raw, n_paths-le p m distinct))
  | inr (old, new, m1, gone, m2, made, apart, e) ↦
      let q : String = if str_eq old.path p then new.path else p in
      let one : OneTouch p (renamed old new m) =
        omega (arith, renamed-touches p old new m raw apart, n_paths-le q m distinct) in
      let held : any (has_path new.path) m ≡ true =
        In-any (has_path new.path) new m m2 (str_eq_self new.path) in
      let kept : net p none (renamed old new m) ≡ net p none m =
        elim (Bool-cases (str_eq old.path p)) [
          | inl from ↦
              let here : old.path ≡ p = (eq_iff old.path p).0 from in
              let word_old : net old.path none m ≡ some false =
                net-In old none m raw distinct m1 ∙ ground (arith, str_eq_self old.path) in
              let said : effect p (rename_event old new) none ≡ some false =
                ground (arith, eq_iff new.path p, eq_iff old.path new.path) in
              net-renamed p none old new m false raw apart said
              ∙ rw held (sym (subst (λ k. net k none m ≡ some false) here word_old))
          | inr elsewhere ↦ elim (Bool-cases (str_eq new.path p)) [
            | inl to ↦
                let here : new.path ≡ p = (eq_iff new.path p).0 to in
                let word_new : net new.path none m ≡ some true =
                  net-In new none m raw distinct m2 ∙ ground (arith, str_eq_self new.path) in
                let said : effect p (rename_event old new) none ≡ some true = ground arith in
                net-renamed p none old new m true raw apart said
                ∙ rw held (sym (subst (λ k. net k none m ≡ some true) here word_new))
            | inr away ↦ net-renamed_other p none old new m raw elsewhere away
          ]
        ] in
      rw e (kept, one)
]

-- For events as the file system gives them, a coalesced batch has one event at most that says something
-- of a path; and applied in the order of the dispatch, updates first, it says of every path what all the
-- events said in theirs: that there is a file, that there is none, or nothing.
pub coalesce_events-Net :
    (events : List WatcherEvent) (p : String)
    → IsRaw events
    → (net p none (dispatched (coalesce_events events)) ≡ net p none events)
      × OneTouch p (coalesce_events events)
unfolding coalesce_events
coalesce_events-Net events p raw =
    let table = per_path_from [] events in
    let raw_table : IsRaw table = per_path-IsRaw [] events tt raw in
    let keyed : HasDistinctPaths table = per_path-HasDistinctPaths [] events tt in
    let upgraded = map (upgrade events) table in
    let (same, one) =
      net-fold_rename p upgraded (upgraded-IsRaw events table raw_table)
        (upgraded-HasDistinctPaths events table raw_table keyed) in
    (
      net-dispatched p none (fold_rename upgraded) one
          ∙ same
          ∙ net-upgraded p none events table raw_table
          ∙ net-word p table raw_table keyed
          ∙ word-per_path p [] events raw,
      one,
    )
