-- ===== src/Base/Maps.antt =====
-- `std::unordered_map` keyed by an integer, read and written at single keys: a function. A map that
-- the code reads by `operator[]` alone is total, with the value that a missing key is given.
use Prim.Native.Nat.{ℕ}
use mathlib.Core.Path.{◌≡◌, refl}
use mathlib.Core.Logic.{◌≢◌}
use deep_inc.Base.Tests.{◌==◌, if◌then◌else◌, eq→==, ne→==}

abbrev pub update {ℓ} : {V : Type ℓ} → (ℕ → V) → ℕ → V → ℕ → V
update m k v j = if k == j then v else m j

module _ {ℓ} {V : Type ℓ} (m : ℕ → V) (k : ℕ) (v : V) where
  pub update_self : update m k v k ≡ v
  update_self = rw (eq→== k k refl)

  pub update_ne : (j : ℕ) → k ≢ j → update m k v j ≡ m j
  update_ne j h = rw (ne→== k j h)
