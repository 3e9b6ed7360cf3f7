-- ===== src/Embed/Open.antt =====
-- `MemmapEmbedStore.__init__`, with `_create_new` and `_open_existing`.
use longctx.Base.{
  ℕ, ◌-◌, String, Bool, true, not, ◌||◌, Option, none, some, List, [], ◌++◌, ltb, ◌==◌, str_eq,
  length, take, replicate,
}
use longctx.Base.Result.{Result, ok, value_error, embedder_mismatch, ◌>>◌, require}
use longctx.Embed.{Numpy, EmbedIndex, MemmapEmbedStore}

-- The arguments of the constructor.
pub record StoreConfig : Type 0 where
  pub model_name : String
  pub model_sha256 : String
  pub dim : ℕ
  pub initial_rows : ℕ
  pub growth_num : ℕ
  pub growth_den : ℕ
  pub validate : Bool
  pub on_mismatch : String

module _ {V : Type 0} (np : Numpy V) where
  -- `_create_new`
  unfoldable pub create_new : StoreConfig → MemmapEmbedStore V
  create_new c =
      let state : EmbedIndex = record {
        num_rows = 0;
        dim = c.dim;
        model_name = c.model_name;
        model_sha256 = c.model_sha256;
        freelist = [];
        capacity = c.initial_rows;
      } in
      record {
        dim = c.dim;
        model_name = c.model_name;
        model_sha256 = c.model_sha256;
        growth_num = c.growth_num;
        growth_den = c.growth_den;
        validate = c.validate;
        state = state;
        mapped = true;
        rows = replicate c.initial_rows np.zero_row;
        idx_file = state;
      }

  -- `_open_existing`: the identity checks, then a memmap of the recorded capacity over the file.
  unfoldable pub open_existing : StoreConfig → EmbedIndex → List V → Result (MemmapEmbedStore V)
  open_existing c stored file = do
    require (stored.dim == c.dim) value_error
    require (str_eq stored.model_name c.model_name) embedder_mismatch
    require (str_eq stored.model_sha256 c.model_sha256 || not (str_eq c.on_mismatch "raise"))
        embedder_mismatch
    let state = record stored { model_sha256 = c.model_sha256 }
    ok (record {
      dim = c.dim;
      model_name = c.model_name;
      model_sha256 = c.model_sha256;
      growth_num = c.growth_num;
      growth_den = c.growth_den;
      validate = c.validate;
      state = state;
      mapped = true;
      rows = take stored.capacity file ++ replicate (stored.capacity - length file) np.zero_row;
      idx_file = state;
    })

  -- `__init__`: the checks of the arguments, then one of the two paths. The files are given if both
  -- are there.
  unfoldable pub init : StoreConfig → Option (EmbedIndex × List V) → Result (MemmapEmbedStore V)
  init c files = do
    require (ltb c.growth_den c.growth_num) value_error
    require (ltb 0 c.dim) value_error
    require (ltb 0 c.initial_rows) value_error
    require (str_eq c.on_mismatch "raise" || str_eq c.on_mismatch "warn") value_error
    elim files [ none ↦ ok (create_new c) | some (stored, file) ↦ open_existing c stored file ]
