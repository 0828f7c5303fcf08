-- ===== src/Compressor/Registry.antt =====
-- CompressorRegistry of deep_inc/common/compressor/compressor_registry.cc, HyperParamFinder of utils.h
-- and the constructors that the files of impl/ register. Reading a value from its text is the
-- library's stream operator, a parameter; a compressor is the tree of its decorators.
pub mod Layers
use Prim.Native.String.{String, ◌++◌}
use text.Mathlib.Text.{◌==◌ as str_eq}
use deep_inc.Base.{
  ℕ, zero, suc, ◌+◌, ◌/◌, ◌%◌, ◌^◌, Bool, true, false, not, ltb, ◌==◌, if◌then◌else◌, Option, none,
  some, List, [], ◌∷◌, Result, ok, fail, check, check_failed, diverged, or_fail, ◌>>=◌, ◌>>◌,
}
use deep_inc.Common.{get_data_type_length}
use deep_inc.Compressor.Scalar.{Scalar}
use deep_inc.Compressor.Dithering.{PartitionType, linear, natural, NormalizeType, max, l2}

-- `std::unordered_map<std::string, std::string>`
abbrev pub KwargsMap : Type 0
KwargsMap = List (String × String)

unfoldable pub find {ℓ} : {V : Type ℓ} → String → List (String × V) → Option V
find k [] = none
find k ((j, v) ∷ m) = if str_eq j k then some v else find k m

unfoldable pub erase {ℓ} : {V : Type ℓ} → String → List (String × V) → List (String × V)
erase k [] = []
erase k ((j, v) ∷ m) = if str_eq j k then erase k m else (j, v) ∷ erase k m

-- A value that is not there is the blank one if it is optional.
unfoldable pub hyper_param_finder :
    {A : Type 0} → (String → A) → A → KwargsMap → String → Bool → (A → Bool) → Result A
hyper_param_finder read blank kwargs name optional valid = elim (find name kwargs) [
  | none ↦ if optional then ok blank else fail check_failed
  | some text ↦ let value = read text in if valid value then ok value else fail check_failed
]

-- `_ctor_map`: the constructors under their names.
pub data Ctor : Type 0 where
  vanilla_ef nesterov_momentum onebit topk randomk dithering : Ctor

abbrev pub Registry : Type 0
Registry = List (String × Ctor)

-- The check looks for `name`, the entry goes under `name + "_type"`. `emplace` keeps what is there.
unfoldable pub register_ctor : String → Ctor → Registry → Result Registry
unfolding find
register_ctor name ctor m =
    let key = name ++ "_type" in
    elim (find name m) [
      | some old ↦ fail check_failed
      | none ↦ ok (elim (find key m) [ some old ↦ m | none ↦ (key, ctor) ∷ m ])
    ]

-- `Find`
unfoldable pub find_ctor : Registry → String → Result Ctor
unfolding find
find_ctor m name = or_fail (find name m) check_failed

-- The registrations of the files of impl/.
unfoldable pub registry : Result Registry
unfolding register_ctor
registry = register_ctor "onebit_compressor" onebit [] >>= λ m.
    register_ctor "topk_compressor" topk m >>= λ m.
    register_ctor "randomk_compressor" randomk m >>= λ m.
    register_ctor "dithering_compressor" dithering m >>= λ m.
    register_ctor "vanilla_ef" vanilla_ef m >>= λ m.
    register_ctor "nesterov_momentum" nesterov_momentum m

-- How the stream operators read a value.
pub record Stream (c : Scalar) : Type 0 where
  pub num : String → c.Num
  pub nat : String → ℕ
  pub bool : String → Bool

nonzero : ℕ → Bool
nonzero x = not (x == 0)

zero_or_one : ℕ → Bool
zero_or_one x = ltb x 2

-- The first of the types that the parameters name, and its constructor's name.
unfoldable pub first_type : List String → KwargsMap → Option (String × String)
first_type [] kwargs = none
first_type (type ∷ types) kwargs = elim (find type kwargs) [
  | some value ↦ some (type, value)
  | none ↦ first_type types kwargs
]

-- A server does not need momentum.
unfoldable pub types_of : Bool → List String
types_of on_server =
    if on_server
    then "ef_type" ∷ "compressor_type" ∷ []
    else "momentum_type" ∷ "ef_type" ∷ "compressor_type" ∷ []

module _ (c : Scalar) (i : Stream c) where
  open c use {Num, of_nat, mul, div, less, to_nat}

  pub data CompressorTree : Type 0 where
    onebit_compressor : Bool → CompressorTree
    topk_compressor : ℕ → CompressorTree
    randomk_compressor : ℕ → ℕ → CompressorTree
    dithering_compressor : ℕ → ℕ → PartitionType → NormalizeType → CompressorTree
    error_feedback : CompressorTree → CompressorTree
    momentum : Num → CompressorTree → CompressorTree

  -- The number of pairs that topk and randomk keep: an absolute number, or a share of the tensor.
  unfoldable pub pairs_kept : Num → ℕ → ℕ → Result ℕ
  pairs_kept factor size dtype =
      if less factor (of_nat 1)
      then (get_data_type_length dtype >>= λ len.
          let k = to_nat (div (mul factor (of_nat size)) (of_nat len)) % 2 ^ 32 in
          ok (if k == 0 then 1 else k))
      else ok (to_nat factor % 2 ^ 32)

  unfoldable positive : Num → Bool
  positive x = less (of_nat 0) x

  unfoldable pub onebit_ctor : KwargsMap → Result CompressorTree
  unfolding hyper_param_finder
  onebit_ctor kwargs =
      hyper_param_finder i.bool false kwargs "compressor_onebit_scaling" true (λ x. true)
      >>= λ scaled. ok (onebit_compressor scaled)

  unfoldable pub topk_ctor : KwargsMap → ℕ → ℕ → Result CompressorTree
  unfolding hyper_param_finder pairs_kept positive
  topk_ctor kwargs size dtype =
      hyper_param_finder i.num (of_nat 0) kwargs "compressor_k" false positive >>= λ factor.
      pairs_kept factor size dtype >>= λ k. ok (topk_compressor k)

  unfoldable pub randomk_ctor : KwargsMap → ℕ → ℕ → Result CompressorTree
  unfolding hyper_param_finder pairs_kept positive nonzero
  randomk_ctor kwargs size dtype =
      hyper_param_finder i.num (of_nat 0) kwargs "compressor_k" false positive >>= λ factor.
      pairs_kept factor size dtype >>= λ k.
      hyper_param_finder i.nat 0 kwargs "seed" true nonzero >>= λ seed.
      ok (randomk_compressor k seed)

  unfoldable pub dithering_ctor : KwargsMap → Result CompressorTree
  unfolding hyper_param_finder nonzero zero_or_one
  dithering_ctor kwargs =
      hyper_param_finder i.nat 0 kwargs "compressor_k" false (λ x. true) >>= λ k.
      hyper_param_finder i.nat 0 kwargs "seed" true nonzero >>= λ seed.
      hyper_param_finder i.nat 0 kwargs "dithering_partition" true zero_or_one >>= λ ptype.
      hyper_param_finder i.nat 0 kwargs "dithering_normalize" true zero_or_one >>= λ ntype. ok (
        dithering_compressor k seed (if ptype == 0 then linear else natural)
          (if ntype == 0 then max else l2))

  -- A null pointer is `none`. A decorator creates the compressor that it wraps without its own
  -- parameter, and wants one. `lr_opens` says that the file lr.s opens and can be mapped.
  unfoldable pub create :
      ℕ → Registry → Bool → Bool → KwargsMap → ℕ → ℕ → Result (Option CompressorTree)
  unfolding first_type types_of
  create zero m lr_opens on_server kwargs size dtype = fail diverged
  create (suc fuel) m lr_opens on_server kwargs size dtype =
      elim (first_type (types_of on_server) kwargs) [
        | none ↦ ok none
        | some (type, value) ↦ find_ctor m (value ++ "_" ++ type) >>= λ ctor. elim ctor [
          | onebit ↦ onebit_ctor kwargs >>= λ x. ok (some x)
          | topk ↦ topk_ctor kwargs size dtype >>= λ x. ok (some x)
          | randomk ↦ randomk_ctor kwargs size dtype >>= λ x. ok (some x)
          | dithering ↦ dithering_ctor kwargs >>= λ x. ok (some x)
          | vanilla_ef ↦
              create fuel m lr_opens on_server (erase "ef_type" kwargs) size dtype >>= λ inner.
              or_fail inner check_failed >>= λ x. check lr_opens >> ok (some (error_feedback x))
          | nesterov_momentum ↦
              create fuel m lr_opens on_server (erase "momentum_type" kwargs) size dtype
              >>= λ inner. or_fail inner check_failed >>= λ x.
                  hyper_param_finder i.num (of_nat 0) kwargs "momentum_mu" false (λ y. true)
                  >>= λ mu. ok (some (momentum mu x))
        ]
      ]
