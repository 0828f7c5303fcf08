-- ===== src/Compressor/Scalar.antt =====
-- The arithmetic of `float` and `double` that deep_inc/common/compressor computes with. It is the
-- machine's, so it is a parameter: any type with these operations.
use deep_inc.Base.{ℕ, Bool, if◌then◌else◌}

pub record Scalar : Type 1 where
  pub Num : Type 0
  pub of_nat : ℕ → Num
  pub add : Num → Num → Num
  pub sub : Num → Num → Num
  pub mul : Num → Num → Num
  pub div : Num → Num → Num
  -- std::abs, std::sqrt, std::floor, std::ceil and std::signbit
  pub abs : Num → Num
  pub sqrt : Num → Num
  pub floor : Num → Num
  pub ceil : Num → Num
  pub signbit : Num → Bool
  pub less : Num → Num → Bool
  -- a conversion to `float`, and one to an unsigned number
  pub to_single : Num → Num
  pub to_nat : Num → ℕ

-- `1 - (b << 1)`, as a factor.
unfoldable pub sign_of : (c : Scalar) → Bool → c.Num
sign_of c b = if b then c.sub (c.of_nat 0) (c.of_nat 1) else c.of_nat 1
