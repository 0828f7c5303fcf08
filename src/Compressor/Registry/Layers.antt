-- ===== src/Compressor/Registry/Layers.antt =====
-- The layers that CompressorRegistry::Create of deep_inc/common/compressor/compressor_registry.cc puts
-- round a compressor.
use Prim.Native.String.{String}
use text.Mathlib.Text.{◌==◌ as str_eq}
use text.Mathlib.TextEquality.{eq_iff}
use deep_inc.Base.{
  ℕ, suc, ◌≡◌, ◌∙◌, ap, refl, inl, inr, ◌⊎◌, Option-cases, arith, Bool, true, false, if◌then◌else◌,
  Option, none, some, List, [], ◌∷◌, ok, ◌>>=◌,
}
use deep_inc.Compressor.Scalar.{Scalar}
use deep_inc.Compressor.Registry.{
  KwargsMap, find, erase, registry, Registry, Stream, CompressorTree, create, find_ctor, onebit,
  vanilla_ef, nesterov_momentum, first_type, types_of, onebit_compressor, error_feedback, momentum,
  onebit_ctor, hyper_param_finder,
}

pub find-erase {ℓ} :
    {V : Type ℓ} (k j : String) (m : List (String × V))
    → find j (erase k m) ≡ (if str_eq k j then none else find j m)
unfolding find erase
find-erase k j [] = ground arith
find-erase k j ((i, v) ∷ m) = ground (arith, eq_iff k j, eq_iff i k, eq_iff i j, find-erase k j m)

module _ (c : Scalar) (i : Stream c) where
  -- What the parameters say about the scaling of onebit.
  abbrev pub scaling : KwargsMap → Bool
  scaling kwargs = elim (find "compressor_onebit_scaling" kwargs) [
    | none ↦ false
    | some text ↦ i.bool text
  ]

  onebit_ctor_lem :
      (kwargs : KwargsMap) → onebit_ctor c i kwargs ≡ ok (onebit_compressor (scaling kwargs))
  unfolding onebit_ctor hyper_param_finder
  onebit_ctor_lem kwargs = elim (Option-cases (find "compressor_onebit_scaling" kwargs)) [
    | inl e ↦ rw (e, scaling, onebit_ctor, hyper_param_finder) refl
    | inr (t, e) ↦ rw (e, scaling, onebit_ctor, hyper_param_finder) refl
  ]

  -- The registrations succeed, and each name leads to its constructor.
  registered :
      (m : Registry) × (registry ≡ ok m)
      × (find_ctor m "onebit_compressor_type" ≡ ok onebit)
      × (find_ctor m "vanilla_ef_type" ≡ ok vanilla_ef)
      × (find_ctor m "nesterov_momentum_type" ≡ ok nesterov_momentum)
  unfolding registry find_ctor
  registered = (_, refl, refl, refl, refl)

  -- On a server the momentum is passed over.
  first_onebit :
      (on_server : Bool) (kwargs : KwargsMap)
      → (on_server ≡ true) ⊎ (find "momentum_type" kwargs ≡ none)
      → find "ef_type" kwargs ≡ none
      → find "compressor_type" kwargs ≡ some "onebit"
      → first_type (types_of on_server) kwargs ≡ some ("compressor_type", "onebit")
  unfolding first_type types_of
  first_onebit false kwargs (inl a) e k = absurd cc
  first_onebit false kwargs (inr a) e k = rw (a, first_type, e, first_type, k) refl
  first_onebit true kwargs a e k = rw (e, first_type, k) refl

  first_vanilla :
      (on_server : Bool) (kwargs : KwargsMap)
      → (on_server ≡ true) ⊎ (find "momentum_type" kwargs ≡ none)
      → find "ef_type" kwargs ≡ some "vanilla"
      → first_type (types_of on_server) kwargs ≡ some ("ef_type", "vanilla")
  unfolding first_type types_of
  first_vanilla false kwargs (inl a) e = absurd cc
  first_vanilla false kwargs (inr a) e = rw (a, first_type, e) refl
  first_vanilla true kwargs a e = rw (e, first_type) refl

  module _ (m : Registry) (size dtype : ℕ) where
    create_onebit :
        (fuel : ℕ) (on_server : Bool) (kwargs : KwargsMap)
        → find_ctor m "onebit_compressor_type" ≡ ok onebit
        → first_type (types_of on_server) kwargs ≡ some ("compressor_type", "onebit")
        → create c i (suc fuel) m true on_server kwargs size dtype
          ≡ ok (some (onebit_compressor (scaling kwargs)))
    unfolding create
    create_onebit fuel on_server kwargs h first = rw (first, create, h, onebit_ctor_lem kwargs) refl

    -- Error feedback wraps what the other parameters ask for.
    create_vanilla :
        (fuel : ℕ) (on_server : Bool) (kwargs : KwargsMap) (inner : CompressorTree c i)
        → find_ctor m "vanilla_ef_type" ≡ ok vanilla_ef
        → first_type (types_of on_server) kwargs ≡ some ("ef_type", "vanilla")
        → create c i fuel m true on_server (erase "ef_type" kwargs) size dtype ≡ ok (some inner)
        → create c i (suc fuel) m true on_server kwargs size dtype
          ≡ ok (some (error_feedback inner))
    unfolding create
    create_vanilla fuel on_server kwargs inner h first made = rw (first, create, h, made) refl

  -- Parameters without one key keep the others.
  scaling-erase :
      (kwargs : KwargsMap) (k : String)
      → str_eq k "compressor_onebit_scaling" ≡ false
      → scaling (erase k kwargs) ≡ scaling kwargs
  scaling-erase kwargs k h =
      ap (λ (o : Option String). elim o as (λ _. Bool) [ none ↦ false | some text ↦ i.bool text ])
        (find-erase k "compressor_onebit_scaling" kwargs ∙ rw h refl)

  still_none :
      (kwargs : KwargsMap) (on_server : Bool)
      → (on_server ≡ true) ⊎ (find "momentum_type" kwargs ≡ none)
      → (on_server ≡ true) ⊎ (find "momentum_type" (erase "ef_type" kwargs) ≡ none)
  still_none kwargs on_server (inl a) = inl a
  still_none kwargs on_server (inr a) = inr (find-erase "ef_type" "momentum_type" kwargs ∙ a)

  fed_back : KwargsMap → CompressorTree c i
  fed_back kwargs = error_feedback (onebit_compressor (scaling kwargs))

  create_fed_back :
      (m : Registry) (size dtype : ℕ) (on_server : Bool) (kwargs : KwargsMap)
      → find_ctor m "onebit_compressor_type" ≡ ok onebit
      → find_ctor m "vanilla_ef_type" ≡ ok vanilla_ef
      → (on_server ≡ true) ⊎ (find "momentum_type" kwargs ≡ none)
      → find "ef_type" kwargs ≡ some "vanilla"
      → find "compressor_type" kwargs ≡ some "onebit"
      → (fuel : ℕ)
      → create c i (suc (suc fuel)) m true on_server kwargs size dtype ≡ ok (some (fed_back kwargs))
  unfolding fed_back
  create_fed_back m size dtype on_server kwargs h1 h2 a e k fuel =
      let less = erase "ef_type" kwargs in
      create_vanilla m size dtype (suc fuel) on_server kwargs (onebit_compressor (scaling kwargs))
        h2 (first_vanilla on_server kwargs a e)
        (create_onebit m size dtype fuel on_server less h1 (
            first_onebit on_server less (still_none kwargs on_server a)
              (find-erase "ef_type" "ef_type" kwargs)
              (find-erase "ef_type" "compressor_type" kwargs ∙ k))
          ∙ ap (λ (b : Bool). ok (some (onebit_compressor b)))
              (scaling-erase kwargs "ef_type" refl))

  create_momentum :
      (m : Registry) (size dtype fuel : ℕ) (kwargs : KwargsMap) (mu : String)
      (inner : CompressorTree c i)
      → find_ctor m "nesterov_momentum_type" ≡ ok nesterov_momentum
      → find "momentum_type" kwargs ≡ some "nesterov"
      → find "momentum_mu" kwargs ≡ some mu
      → create c i fuel m true false (erase "momentum_type" kwargs) size dtype ≡ ok (some inner)
      → create c i (suc fuel) m true false kwargs size dtype ≡ ok (some (momentum (i.num mu) inner))
  unfolding create first_type types_of hyper_param_finder
  create_momentum m size dtype fuel kwargs mu inner h t hmu made =
      rw (t, first_type, create, h, made, hmu, hyper_param_finder) refl

  -- The registrations succeed, and where the file lr.s opens and can be mapped, for parameters that
  -- ask for nesterov momentum with a factor, vanilla error feedback and the onebit compressor,
  -- `Create` on a worker makes the momentum with that factor round the error feedback round onebit
  -- with the scaling that the parameters state (none if they do not), and on a server the error
  -- feedback round onebit.
  pub registry_layers :
      (kwargs : KwargsMap) (size dtype : ℕ) (mu : String)
      → find "momentum_type" kwargs ≡ some "nesterov"
      → find "ef_type" kwargs ≡ some "vanilla"
      → find "compressor_type" kwargs ≡ some "onebit"
      → find "momentum_mu" kwargs ≡ some mu
      → let inner = error_feedback (onebit_compressor (scaling kwargs)) in
        ((registry >>= λ m. create c i 3 m true false kwargs size dtype)
          ≡ ok (some (momentum (i.num mu) inner)))
        × ((registry >>= λ m. create c i 3 m true true kwargs size dtype) ≡ ok (some inner))
  unfolding fed_back
  registry_layers kwargs size dtype mu hm he hc hmu =
      let (m, made, h_onebit, h_ef, h_mom) = registered in
      let less = erase "momentum_type" kwargs in
      let inner =
        create_fed_back m size dtype false less h_onebit h_ef
          (inr (find-erase "momentum_type" "momentum_type" kwargs))
          (find-erase "momentum_type" "ef_type" kwargs ∙ he)
          (find-erase "momentum_type" "compressor_type" kwargs ∙ hc) 0
        ∙ ap (λ (b : Bool). ok (some (error_feedback (onebit_compressor b))))
            (scaling-erase kwargs "momentum_type" refl) in
      (
        rw made (create_momentum m size dtype 2 kwargs mu (fed_back kwargs) h_mom hm hmu inner),
        rw made (create_fed_back m size dtype true kwargs h_onebit h_ef (inl refl) he hc 1),
      )
