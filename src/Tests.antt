-- ===== src/Tests.antt =====
-- Concrete values on which the theorems are applied and the definitions are run.
pub mod Store
pub mod Chunks
pub mod Index
pub mod Manage
pub mod Queries
pub mod Budget
pub mod Search
pub mod Scope
pub mod Watch
pub mod Find
use longctx.Base.{
  ℕ, zero, suc, ◌+◌, ◌*◌, ◌≡◌, refl, ap, ◌∙◌, sym, String, Bool, true, false, not, none, some, List,
  [], ◌∷◌, arith, leb, ltb, ◌==◌, if◌then◌else◌, length,
}
use Prim.Native.Char.{Char, code}
use Prim.Native.String as S
use longctx.Embed.{Numpy, EmbedIndex, MemmapEmbedStore}
use longctx.Embed.Open.{StoreConfig}
use longctx.Embed.Valid.{IsValid}

abbrev squares : List ℕ → ℕ
squares [] = 0
squares (n ∷ ns) = n * n + squares ns

-- Vectors of whole numbers, so those of norm 1 lie on an axis.
abbrev pub numpy : Numpy (List ℕ)
numpy = record {
  width = length;
  as_float32 = λ v. v;
  has_zero_norm = λ v. squares v == 0;
  off_unit_norm = λ v. not (squares v == 1);
  zero_row = 0 ∷ 0 ∷ [];
}

abbrev pub config : StoreConfig
config = record {
  model_name = "axes";
  model_sha256 = "e1";
  dim = 2;
  initial_rows = 1;
  growth_num = 3;
  growth_den = 2;
  validate = true;
  on_mismatch = "raise";
}

-- Three rows handed out of four, the first of them free again.
abbrev pub used : MemmapEmbedStore (List ℕ)
used =
    let state : EmbedIndex = record {
      num_rows = 3;
      dim = 2;
      model_name = "axes";
      model_sha256 = "e1";
      freelist = 0 ∷ [];
      capacity = 4;
    } in
    record {
      dim = 2;
      model_name = "axes";
      model_sha256 = "e1";
      growth_num = 3;
      growth_den = 2;
      validate = true;
      state = state;
      mapped = true;
      rows = (0 ∷ 0 ∷ []) ∷ (0 ∷ 1 ∷ []) ∷ (1 ∷ 0 ∷ []) ∷ (0 ∷ 0 ∷ []) ∷ [];
      idx_file = state;
    }

pub used-IsValid : IsValid used
used-IsValid = record {
  mapped = refl;
  file = refl;
  within = omega arith;
  free_within = (omega arith, tt);
  free_distinct = (refl, tt);
}

-- A hash without collisions: each number in unary, with a mark behind it.
abbrev unary : ℕ → String → String
unary zero rest = S.◌∷◌ "b" rest
unary (suc n) rest = S.◌∷◌ "a" (unary n rest)

abbrev pub digest : List ℕ → String
digest [] = S.[]
digest (n ∷ ns) = unary n (digest ns)

abbrev bump : List ℕ → List ℕ
bump [] = []
bump (n ∷ ns) = suc n ∷ ns

abbrev undigest : String → List ℕ
undigest S.[] = []
undigest (S.◌∷◌ c s) = if code c == 97 then bump (undigest s) else 0 ∷ undigest s

undigest-unary : (n : ℕ) (s : String) → undigest (unary n s) ≡ n ∷ undigest s
undigest-unary zero s = refl
undigest-unary (suc n) s = ap bump (undigest-unary n s)

undigest-digest : (ns : List ℕ) → undigest (digest ns) ≡ ns
undigest-digest [] = refl
undigest-digest (n ∷ ns) = undigest-unary n (digest ns) ∙ ap (◌∷◌ n) (undigest-digest ns)

pub digest_injective : (xs ys : List ℕ) → digest xs ≡ digest ys → xs ≡ ys
digest_injective xs ys e = sym (undigest-digest xs) ∙ ap undigest e ∙ undigest-digest ys
