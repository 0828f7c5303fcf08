-- ===== src/Common/Command.antt =====
-- The command number that travels with a request: `GetCommandType` of deep_inc/common/common.cc at
-- the worker and `DepairDataHandleType` of deep_inc/server/server.h at the server.
use deep_inc.Base.{ℕ, zero, suc, ◌+◌, ◌*◌, ◌/◌, ◌%◌, ◌^◌, ◌≤◌, ◌<◌, ◌≡◌, ok, arith, dec_lt}
use deep_inc.Common.{get_command_type, isqrt, half_int, pair_row, depair_data_handle_type}

isqrt_bounds : (n : ℕ) → (isqrt n * isqrt n ≤ n) × (n < (isqrt n + 1) * (isqrt n + 1))
unfolding isqrt
isqrt_bounds zero = (omega arith, omega arith)
isqrt_bounds (suc n) = ground (arith, isqrt_bounds n)

square_mono : (a b : ℕ) → a ≤ b → a * a ≤ b * b
square_mono a b h = grind arith

root_le : (a b : ℕ) → a * a < (b + 1) * (b + 1) → a ≤ b
root_le a b h = elim (dec_lt b a) [
  | yes lt ↦ absurd (omega (arith, square_mono (b + 1) a (omega arith)))
  | no ge ↦ omega arith
]

isqrt_unique : (n r : ℕ) → r * r ≤ n → n < (r + 1) * (r + 1) → isqrt n ≡ r
isqrt_unique n r lo hi =
    let b = isqrt_bounds n in
    omega (arith, root_le (isqrt n) r (omega arith), root_le r (isqrt n) (omega arith))

mul_le : (a b c : ℕ) → a ≤ b → a * c ≤ b * c
mul_le a b c h = grind arith

even_product : (s : ℕ) → s * (s + 1) % 2 ≡ 0
even_product zero = omega arith
even_product (suc s) = omega (arith, even_product s)

-- The row of a pair is found by way of the root, from the least number of the row on.
pair_row-pair : (s t d : ℕ) → t * 2 ≡ s * s + s → d ≤ s → pair_row (t + d) ≡ s
unfolding pair_row
pair_row-pair s t d e le =
    let n = 8 * (t + d) + 1 in
    let b = isqrt_bounds n in
    omega (
      arith,
      root_le (2 * s + 1) (isqrt n) (omega arith),
      root_le (isqrt n) (2 * s + 2) (omega arith),
    )

-- No `int` overflows.
get_command_type-exact :
    (m d : ℕ)
    → m + d < 2 ^ 14
    → (get_command_type m d ≡ (m + d) * (m + d + 1) / 2 + d)
      × ((m + d) * (m + d + 1) / 2 + d < 2 ^ 28)
unfolding get_command_type half_int
get_command_type-exact m d small =
    let product : (m + d) * (m + d + 1) ≤ 2 ^ 14 * (m + d + 1) =
      mul_le (m + d) (2 ^ 14) (m + d + 1) (omega (arith, small)) in
    (ground (arith, product, small), omega (arith, product, small))

-- Decoding the command number of a request type and a data type whose sum is below 2 ^ 14 gives the
-- two back; the code has three request types and seven data types.
pub depair-get_command_type :
    (m d : ℕ)
    → m + d < 2 ^ 14
    → depair_data_handle_type (get_command_type m d) ≡ ok (record { request_type = m; dtype = d })
unfolding depair_data_handle_type
depair-get_command_type m d small =
    let cmd = (m + d) * (m + d + 1) / 2 + d in
    let (exact, low) = get_command_type-exact m d small in
    rw exact (
      ground
        (arith, low, even_product (m + d), pair_row-pair (m + d) ((m + d) * (m + d + 1) / 2) d))
