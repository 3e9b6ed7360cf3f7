-- ===== src/Base/Result.antt =====
-- Python exceptions as values: a call returns, or raises one of the exceptions that the code names.
use mathlib.Core.Path.{◌≡◌, refl}
use mathlib.Core.Bool.{Bool, true, false}
use mathlib.Core.Logic.{◌⊎◌, inl, inr}

-- `out_of_fuel` is no exception: it marks a loop of the model whose fuel was too little.
pub data Error : Type 0 where
  value_error index_error type_error key_error assertion_error : Error
  zero_division file_not_found forbidden_project embedder_mismatch schema_mismatch integrity_error :
      Error
  out_of_fuel : Error

pub data Result {ℓ} (A : Type ℓ) : Type ℓ where
  ok : A → Result A
  raise : Error → Result A

infixl 5 ◌>>=◌
abbrev pub ◌>>=◌ {ℓ κ} : {X : Type ℓ} {Y : Type κ} → (m : Result X) (next : X → Result Y) → Result Y
raise error >>= next = raise error
ok x >>= next = next x

infixl 5 ◌>>◌
abbrev pub ◌>>◌ {ℓ} : {Y : Type ℓ} → (check : Result (Unit {0})) (next : Result Y) → Result Y
check >> next = check >>= (λ _. next)

-- `if not condition: raise error`
abbrev pub require : Bool → Error → Result (Unit {0})
require true e = ok tt
require false e = raise e

-- What a chain that returns is made of.
pub >>=-eq-ok {ℓ κ} :
    {X : Type ℓ} {Y : Type κ} {y : Y} (m : Result X) (next : X → Result Y)
    → (m >>= next) ≡ ok y
    → (x : X) × (m ≡ ok x) × (next x ≡ ok y)
>>=-eq-ok (raise error) next returned = cc
>>=-eq-ok (ok x) next returned = (x, refl, returned)

pub ok_injective {ℓ} : {A : Type ℓ} (a b : A) → ok a ≡ ok b → a ≡ b
ok_injective a b h = cc

pub raise-neq-ok {ℓ} : {A : Type ℓ} (e : Error) (a : A) → raise e ≡ ok a → ⊥
raise-neq-ok e a h = cc

-- A check that was passed.
pub require-eq-ok {ℓ} :
    {B : Type ℓ} (test : Bool) (e : Error) (k : Result B) {b : B}
    → (require test e >> k) ≡ ok b
    → (test ≡ true) × (k ≡ ok b)
require-eq-ok true e k h = (refl, h)
require-eq-ok false e k h = cc

pub Result-cases {ℓ} :
    {A : Type ℓ} (m : Result A) → ((a : A) × (m ≡ ok a)) ⊎ ((e : Error) × (m ≡ raise e))
Result-cases (ok a) = inl (a, refl)
Result-cases (raise e) = inr (e, refl)
