-- ===== src/Watcher/States.antt =====
-- A project's state under the changes of the table of states.
use longctx.Base.{
  ◌≡◌, sym, ap, ◌∙◌, String, Bool, true, false, inl, inr, Bool-cases, some, List, [], ◌∷◌, ◌++◌,
  map, select, In, str_eq, eq_iff, arith,
}
use longctx.Watcher.{ProjectState, get_state}

pub get_state-name :
    (name : String) (s : ProjectState) (ss : List ProjectState)
    → get_state name ss ≡ some s
    → s.name ≡ name
get_state-name name s [] h = absurd (ground arith)
get_state-name name s (t ∷ ts) h = elim (Bool-cases (str_eq t.name name)) [
  | inl here ↦
      let e : t ≡ s = ground arith in ap (λ k. k.name) (sym e) ∙ (eq_iff t.name name).0 here
  | inr there ↦ get_state-name name s ts (ground arith)
]

-- A change that keeps the names.
pub get_state-map :
    (name : String) (change : ProjectState → ProjectState) (s : ProjectState)
    (ss : List ProjectState)
    → ((t : ProjectState) → (change t).name ≡ t.name)
    → get_state name ss ≡ some s
    → get_state name (map change ss) ≡ some (change s)
get_state-map name change s [] kept h = absurd (ground arith)
get_state-map name change s (t ∷ ts) kept h = elim (Bool-cases (str_eq t.name name)) [
  | inl here ↦
      let e : t ≡ s = ground arith in
      let here' : str_eq (change t).name name ≡ true = ap (λ k. str_eq k name) (kept t) ∙ here in
      rw here' (ap (λ k. some (change k)) e)
  | inr there ↦
      let there' : str_eq (change t).name name ≡ false = ap (λ k. str_eq k name) (kept t) ∙ there in
      rw there' (get_state-map name change s ts kept (ground arith))
]

pub get_state-append :
    (name : String) (s : ProjectState) (ss ts : List ProjectState)
    → get_state name ss ≡ some s
    → get_state name (ss ++ ts) ≡ some s
get_state-append name s [] ts h = absurd (ground arith)
get_state-append name s (t ∷ ss) ts h = elim (Bool-cases (str_eq t.name name)) [
  | inl here ↦ rw here (ground arith)
  | inr there ↦ rw there (get_state-append name s ss ts (ground arith))
]

-- A selection that the state passes.
pub get_state-select :
    (name : String) (test : ProjectState → Bool) (s : ProjectState) (ss : List ProjectState)
    → test s ≡ true
    → get_state name ss ≡ some s
    → get_state name (select test ss) ≡ some s
get_state-select name test s [] pass h = absurd (ground arith)
get_state-select name test s (t ∷ ts) pass h = elim (Bool-cases (str_eq t.name name)) [
  | inl here ↦
      let e : t ≡ s = ground arith in
      let pass' : test t ≡ true = ap test e ∙ pass in rw pass' (rw here (ap some e))
  | inr there ↦ elim (Bool-cases (test t)) [
    | inl in_t ↦ rw in_t (rw there (get_state-select name test s ts pass (ground arith)))
    | inr out_t ↦ rw out_t (get_state-select name test s ts pass (ground arith))
  ]
]

pub get_state-In :
    (name : String) (s : ProjectState) (ss : List ProjectState)
    → get_state name ss ≡ some s
    → In s ss
get_state-In name s [] h = absurd (ground arith)
get_state-In name s (t ∷ ts) h = elim (Bool-cases (str_eq t.name name)) [
  | inl here ↦ inl (ground arith)
  | inr there ↦ inr (get_state-In name s ts (ground arith))
]
