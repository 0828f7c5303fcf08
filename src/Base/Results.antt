-- ===== src/Base/Results.antt =====
-- Results of code that may stop: a failed BPS_CHECK, an index out of range, a null pointer followed,
-- a thrown exception, an operation that C++ leaves undefined, or a loop whose fuel ran out.
use mathlib.Core.Path.{◌≡◌, refl}
use mathlib.Core.Logic.{◌⊎◌, inl, inr}
use mathlib.Core.Bool.{Bool, true, false}
use mathlib.Core.Option.{Option, none, some}

pub data Fault : Type 0 where
  check_failed out_of_range null_pointer invalid_argument undefined diverged : Fault

-- A stop says why; otherwise there is a value.
pub data Result {ℓ} (A : Type ℓ) : Type ℓ where
  fail : Fault → Result A
  ok : A → Result A

-- `BPS_CHECK(b)` and `CHECK(b)`.
abbrev pub check : Bool → Result (Unit {0})
check false = fail check_failed
check true = ok tt

-- What follows a step that may stop. It computes without unfolding.
infixl 5 ◌>>=◌
abbrev pub ◌>>=◌ {ℓ κ} : {A : Type ℓ} {B : Type κ} → Result A → (A → Result B) → Result B
fail why >>= next = fail why
ok value >>= next = next value

-- The same after a step without a value.
infixl 5 ◌>>◌
abbrev pub ◌>>◌ {κ} : {B : Type κ} → Result (Unit {0}) → Result B → Result B
step >> rest = step >>= λ done. rest

abbrev pub or_fail {ℓ} : {A : Type ℓ} → Option A → Fault → Result A
or_fail none e = fail e
or_fail (some a) e = ok a

-- Inversion of a successful bind, for proofs where the parts stay shut.
pub >>=-eq-ok {ℓ κ} :
    {A : Type ℓ} {B : Type κ} {last : B} (step : Result A) (next : A → Result B)
    → (step >>= next) ≡ ok last
    → (value : A) × (step ≡ ok value) × (next value ≡ ok last)
>>=-eq-ok (fail why) next run = cc
>>=-eq-ok (ok value) next run = (value, refl, run)

pub Result-cases {ℓ} :
    {A : Type ℓ} (r : Result A) → ((a : A) × (r ≡ ok a)) ⊎ ((e : Fault) × (r ≡ fail e))
Result-cases (ok a) = inl (a, refl)
Result-cases (fail e) = inr (e, refl)

pub ok_inj {ℓ} : {A : Type ℓ} {a b : A} → ok a ≡ ok b → a ≡ b
ok_inj e = cc
