-- ===== src/Watcher/Coalesce/Words.antt =====
-- What a table of events says of a path, in any order.
use mathlib.Core.Path.{subst}
use longctx.Base.{
  suc, ◌≤◌, ◌≡◌, refl, sym, ap, ◌∙◌, String, Bool, true, false, not, ◌||◌, inl, inr, Bool-cases,
  Option, none, List, [], ◌∷◌, ◌++◌, map, str_eq, eq_iff, length, select, In, In-any, arith, any,
}
use longctx.Watcher.{modify, WatcherEvent}
use longctx.Watcher.Coalesce.{is_create, upgrade}
use longctx.Watcher.Coalesce.Phases.{
  is_rename, IsRaw, effect, net, touches, has_path, HasDistinctPaths, str_eq_self, net-append,
  effect_untouched, net_untouched, word,
}

-- The order in which a batch is applied: updates in bulk, and the other events after them.
abbrev pub is_update : WatcherEvent → Bool
is_update e = is_create e || elim e.type [ modify ↦ true | _ ↦ false ]

abbrev pub dispatched : List WatcherEvent → List WatcherEvent
dispatched es = select is_update es ++ select (λ e. not (is_update e)) es

-- One event at most says something of the path.
abbrev pub OneTouch : String → List WatcherEvent → Type 0
OneTouch p es = length (select (touches p) es) ≤ 1

no_touch-select :
    (p : String) (test : WatcherEvent → Bool) (es : List WatcherEvent)
    → select (touches p) es ≡ []
    → select (touches p) (select test es) ≡ []
no_touch-select p test [] h = refl
no_touch-select p test (e ∷ es) h = elim (Bool-cases (touches p e)) [
  | inl hit ↦ absurd (ground arith)
  | inr miss ↦
      let h' : select (touches p) es ≡ [] = ground arith in
      elim (Bool-cases (test e)) [
        | inl pass ↦ rw pass (rw miss (no_touch-select p test es h'))
        | inr fail ↦ rw fail (no_touch-select p test es h')
      ]
]

none_left :
    (p : String) (e : WatcherEvent) (es : List WatcherEvent)
    → OneTouch p (e ∷ es)
    → touches p e ≡ true
    → select (touches p) es ≡ []
none_left p e es one hit = short (select (touches p) es) (rw hit at one)
  where
    short : (xs : List WatcherEvent) → suc (length xs) ≤ 1 → xs ≡ []
    short [] h = refl
    short (x ∷ xs) h = absurd (omega arith)

-- The order does not matter to a path of which one event at most says something.
pub net-dispatched :
    (p : String) (said : Option Bool) (es : List WatcherEvent)
    → OneTouch p es
    → net p said (dispatched es) ≡ net p said es
net-dispatched p said [] one = refl
net-dispatched p said (e ∷ es) one =
    let rest : OneTouch p es = ground arith in
    elim (Bool-cases (is_update e)) [
      | inl first ↦ rw first (net-dispatched p (effect p e said) es rest)
      | inr later ↦ rw later (
          net-append p said (select is_update es) (e ∷ select (λ e. not (is_update e)) es)
          ∙ elim (Bool-cases (touches p e)) [
            | inl hit ↦
                let none_else = none_left p e es one hit in
                ap (λ k. net p (effect p e k) (select (λ e. not (is_update e)) es))
                  (net_untouched p said (select is_update es)
                    (no_touch-select p is_update es none_else))
                ∙ net_untouched p (effect p e said) (select (λ e. not (is_update e)) es)
                    (no_touch-select p (λ e. not (is_update e)) es none_else)
                ∙ sym (net_untouched p (effect p e said) es none_else)
            | inr miss ↦
                ap (λ k. net p k (select (λ e. not (is_update e)) es))
                  (effect_untouched p e (net p said (select is_update es)) miss)
                ∙ sym (net-append p said (select is_update es) (select (λ e. not (is_update e)) es))
                ∙ net-dispatched p said es rest
                ∙ ap (λ k. net p k es) (sym (effect_untouched p e said miss))
          ])
    ]

-- The second phase changes no path, and no word.
pub upgrade_kept :
    (events : List WatcherEvent) (e : WatcherEvent)
    → is_rename e ≡ false
    → ((upgrade events e).path ≡ e.path)
      × (is_rename (upgrade events e) ≡ false)
      × ((p : String) (said : Option Bool) → effect p (upgrade events e) said ≡ effect p e said)
unfolding upgrade
upgrade_kept events e raw = (ground arith, ground arith, λ p said. ground arith)

any-upgraded :
    (p : String) (events m : List WatcherEvent)
    → IsRaw m
    → any (has_path p) (map (upgrade events) m) ≡ any (has_path p) m
any-upgraded p events [] raw = refl
any-upgraded p events (e ∷ es) (here, rest) =
    rw ((upgrade_kept events e here).0) (ground (arith, any-upgraded p events es rest))

pub upgraded-HasDistinctPaths :
    (events m : List WatcherEvent)
    → IsRaw m
    → HasDistinctPaths m
    → HasDistinctPaths (map (upgrade events) m)
upgraded-HasDistinctPaths events [] raw h = tt
upgraded-HasDistinctPaths events (e ∷ es) (here, rest) (new, distinct) = (
  rw ((upgrade_kept events e here).0) (any-upgraded e.path events es rest ∙ new),
  upgraded-HasDistinctPaths events es rest distinct,
)

pub upgraded-IsRaw : (events m : List WatcherEvent) → IsRaw m → IsRaw (map (upgrade events) m)
upgraded-IsRaw events [] raw = tt
upgraded-IsRaw events (e ∷ es) (here, rest) =
    ((upgrade_kept events e here).1, upgraded-IsRaw events es rest)

pub net-upgraded :
    (p : String) (said : Option Bool) (events m : List WatcherEvent)
    → IsRaw m
    → net p said (map (upgrade events) m) ≡ net p said m
net-upgraded p said events [] raw = refl
net-upgraded p said events (e ∷ es) (here, rest) =
    net-upgraded p (effect p (upgrade events e) said) events es rest
    ∙ ap (λ k. net p k es) ((upgrade_kept events e here).2 p said)

-- What a table says of a path is the word of the entry under it.
pub net-absent :
    (p : String) (said : Option Bool) (m : List WatcherEvent)
    → IsRaw m
    → any (has_path p) m ≡ false
    → net p said m ≡ said
net-absent p said [] raw h = refl
net-absent p said (e ∷ es) (here, rest) h =
    let miss : effect p e said ≡ said = ground arith in
    ap (λ k. net p k es) miss ∙ net-absent p said es rest (ground arith)

pub net-In :
    (e : WatcherEvent) (said : Option Bool) (m : List WatcherEvent)
    → IsRaw m
    → HasDistinctPaths m
    → In e m
    → net e.path said m ≡ effect e.path e said
net-In e said [] raw distinct h = absurd h
net-In e said (f ∷ fs) (here, rest) (new, distinct) (inl same) =
    subst (λ k. net k.path said (f ∷ fs) ≡ effect k.path k said) same
      (net-absent f.path (effect f.path f said) fs rest new)
net-In e said (f ∷ fs) (here, rest) (new, distinct) (inr there) =
    let held : any (has_path e.path) fs ≡ true =
      In-any (has_path e.path) e fs there (str_eq_self e.path) in
    let miss : effect e.path f said ≡ said = elim (Bool-cases (str_eq f.path e.path)) [
      | inl same ↦
          let eq : f.path ≡ e.path = (eq_iff f.path e.path).0 same in
          let new' : any (has_path e.path) fs ≡ false = rw eq at new in absurd (ground arith)
      | inr other ↦ ground arith
    ] in
    ap (λ k. net e.path k fs) miss ∙ net-In e said fs rest distinct there

pub net-word :
    (p : String) (m : List WatcherEvent) → IsRaw m → HasDistinctPaths m → net p none m ≡ word p m
net-word p [] raw distinct = refl
net-word p (e ∷ es) (here, rest) (new, distinct) = elim (Bool-cases (str_eq e.path p)) [
  | inl same ↦
      let eq : e.path ≡ p = (eq_iff e.path p).0 same in
      let new' : any (has_path p) es ≡ false = rw eq at new in
      let here : word p (e ∷ es) ≡ effect p e none = ground arith in
      net-absent p (effect p e none) es rest new' ∙ sym here
  | inr other ↦
      let miss : effect p e none ≡ none = ground arith in
      let there : word p (e ∷ es) ≡ word p es = ground arith in
      ap (λ k. net p k es) miss ∙ net-word p es rest distinct ∙ sym there
]
