-- ===== src/Watcher/Coalesce/Phases.antt =====
-- What the phases of `_coalesce_events` do to the last word on a path.
use longctx.Base.{
  ◌≡◌, refl, ap, ◌∙◌, String, Bool, true, false, ◌&&◌, ◌||◌, inl, inr, Bool-cases, Option, none,
  some, List, [], ◌∷◌, ◌++◌, str_eq, eq_iff, if◌then◌else◌, select, find, any, All, arith,
}
use longctx.Watcher.{create, modify, delete, rename, WatcherEvent}
use longctx.Watcher.Coalesce.{set_event, per_path_from}

abbrev pub is_rename : WatcherEvent → Bool
is_rename e = elim e.type [ rename ↦ true | _ ↦ false ]

-- Events as the file system gives them.
abbrev pub IsRaw : List WatcherEvent → Type 0
IsRaw = All (λ e. is_rename e ≡ false)

abbrev pub moved_from : WatcherEvent → String → Bool
moved_from e p = elim e.old_path [ none ↦ false | some q ↦ str_eq q p ]

-- What an event says of a path: that there is a file, that there is none, or what was said before.
abbrev pub effect : String → WatcherEvent → Option Bool → Option Bool
effect p e said = elim e.type [
  | create ↦ if str_eq e.path p then some true else said
  | modify ↦ if str_eq e.path p then some true else said
  | delete ↦ if str_eq e.path p then some false else said
  | rename ↦ if str_eq e.path p then some true else if moved_from e p then some false else said
]

-- What events say of a path, in their order.
abbrev pub net : String → Option Bool → List WatcherEvent → Option Bool
net p said [] = said
net p said (e ∷ es) = net p (effect p e said) es

abbrev pub touches : String → WatcherEvent → Bool
touches p e = str_eq e.path p || is_rename e && moved_from e p

abbrev pub has_path : String → WatcherEvent → Bool
has_path p e = str_eq e.path p

abbrev pub HasDistinctPaths : List WatcherEvent → Type 0
HasDistinctPaths [] = Unit
HasDistinctPaths (e ∷ es) = (any (has_path e.path) es ≡ false) × HasDistinctPaths es

pub str_eq_self : (s : String) → str_eq s s ≡ true
str_eq_self s = (eq_iff s s).1 refl

pub net-append :
    (p : String) (said : Option Bool) (es fs : List WatcherEvent)
    → net p said (es ++ fs) ≡ net p (net p said es) fs
net-append p said [] fs = refl
net-append p said (e ∷ es) fs = net-append p (effect p e said) es fs

pub effect_untouched :
    (p : String) (e : WatcherEvent) (said : Option Bool)
    → touches p e ≡ false
    → effect p e said ≡ said
effect_untouched p e said h = ground arith

pub net_untouched :
    (p : String) (said : Option Bool) (es : List WatcherEvent)
    → select (touches p) es ≡ []
    → net p said es ≡ said
net_untouched p said [] h = refl
net_untouched p said (e ∷ es) h = elim (Bool-cases (touches p e)) [
  | inl yes_touch ↦ absurd (ground arith)
  | inr no_touch ↦
      let h' : select (touches p) es ≡ [] = ground arith in
      ap (λ k. net p k es) (effect_untouched p e said no_touch) ∙ net_untouched p said es h'
]

-- The last word of a table with a path as its key.
abbrev pub word : String → List WatcherEvent → Option Bool
word p m = elim (find (has_path p) m) [ none ↦ none | some e ↦ effect p e none ]

find-set_event :
    (p : String) (ev : WatcherEvent) (m : List WatcherEvent)
    → find (has_path p) (set_event ev m)
      ≡ (if str_eq ev.path p then some ev else find (has_path p) m)
find-set_event p ev [] = refl
find-set_event p ev (e ∷ es) = elim (Bool-cases (str_eq e.path ev.path)) [
  | inl same ↦
      let eq : e.path ≡ ev.path = (eq_iff e.path ev.path).0 same in
      rw same
        (rw eq (elim (Bool-cases (str_eq ev.path p)) [ inl y ↦ rw y refl | inr n ↦ rw n refl ]))
  | inr other ↦ rw other (elim (Bool-cases (str_eq e.path p)) [
    | inl here ↦
        let eq : e.path ≡ p = (eq_iff e.path p).0 here in
        let apart : str_eq ev.path p ≡ false =
          ground (arith, eq_iff ev.path p, eq_iff e.path ev.path) in
        rw (here, apart) refl
    | inr there ↦ rw there (find-set_event p ev es)
  ])
]

word-set_event :
    (p : String) (ev : WatcherEvent) (m : List WatcherEvent)
    → is_rename ev ≡ false
    → word p (set_event ev m) ≡ effect p ev (word p m)
word-set_event p ev m raw = elim (Bool-cases (str_eq ev.path p)) [
  | inl here ↦ ground (arith, find-set_event p ev m)
  | inr there ↦ ground (arith, find-set_event p ev m)
]

-- The first phase keeps the last word on every path.
pub word-per_path :
    (p : String) (m events : List WatcherEvent)
    → IsRaw events
    → word p (per_path_from m events) ≡ net p (word p m) events
unfolding per_path_from
word-per_path p m [] raw = refl
word-per_path p m (e ∷ es) (here, rest) =
    word-per_path p (set_event e m) es rest ∙ ap (λ k. net p k es) (word-set_event p e m here)

any-set_event :
    (p : String) (ev : WatcherEvent) (m : List WatcherEvent)
    → any (has_path p) (set_event ev m) ≡ (str_eq ev.path p || any (has_path p) m)
any-set_event p ev [] = ground arith
any-set_event p ev (e ∷ es) = elim (Bool-cases (str_eq e.path ev.path)) [
  | inl same ↦
      let eq : e.path ≡ ev.path = (eq_iff e.path ev.path).0 same in rw same (rw eq (ground arith))
  | inr other ↦ rw other (ground (arith, any-set_event p ev es))
]

set_event-HasDistinctPaths :
    (ev : WatcherEvent) (m : List WatcherEvent)
    → HasDistinctPaths m
    → HasDistinctPaths (set_event ev m)
set_event-HasDistinctPaths ev [] h = (refl, tt)
set_event-HasDistinctPaths ev (e ∷ es) (new, rest) = elim (Bool-cases (str_eq e.path ev.path)) [
  | inl same ↦
      let eq : e.path ≡ ev.path = (eq_iff e.path ev.path).0 same in rw same (rw eq at new, rest)
  | inr other ↦ rw other (
    ground (arith, any-set_event e.path ev es, eq_iff ev.path e.path, eq_iff e.path ev.path),
    set_event-HasDistinctPaths ev es rest,
  )
]

pub per_path-HasDistinctPaths :
    (m events : List WatcherEvent) → HasDistinctPaths m → HasDistinctPaths (per_path_from m events)
unfolding per_path_from
per_path-HasDistinctPaths m [] h = h
per_path-HasDistinctPaths m (e ∷ es) h =
    per_path-HasDistinctPaths (set_event e m) es (set_event-HasDistinctPaths e m h)

set_event-IsRaw :
    (ev : WatcherEvent) (m : List WatcherEvent)
    → is_rename ev ≡ false
    → IsRaw m
    → IsRaw (set_event ev m)
set_event-IsRaw ev [] raw h = (raw, tt)
set_event-IsRaw ev (e ∷ es) raw (here, rest) = elim (Bool-cases (str_eq e.path ev.path)) [
  | inl same ↦ rw same (raw, rest)
  | inr other ↦ rw other (here, set_event-IsRaw ev es raw rest)
]

pub per_path-IsRaw :
    (m events : List WatcherEvent) → IsRaw m → IsRaw events → IsRaw (per_path_from m events)
unfolding per_path_from
per_path-IsRaw m [] h raw = h
per_path-IsRaw m (e ∷ es) h (here, rest) =
    per_path-IsRaw (set_event e m) es (set_event-IsRaw e m here h) rest
