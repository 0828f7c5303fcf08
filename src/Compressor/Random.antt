-- ===== src/Compressor/Random.antt =====
-- XorShift128PlusBitShifterRNG and RoundNextPow2 of deep_inc/common/compressor/utils.h.
use Prim.Native.Nat.{bit_or, bit_xor}
use native.Mathlib.Nat.{mod-lt}
use deep_inc.Base.{ℕ, ◌+◌, ◌-◌, ◌*◌, ◌/◌, ◌%◌, ◌^◌, ◌≤◌, ◌<◌, ◌≡◌, Bool, arith}
use deep_inc.Compressor.Scalar.{Scalar}

-- `xorshift128p_state`
pub record Rng : Type 0 where
  pub a : ℕ
  pub b : ℕ

abbrev pub u64 : ℕ → ℕ
u64 n = n % 2 ^ 64

unfoldable pub set_seed : ℕ → Rng
set_seed seed = record { a = seed; b = seed }

unfoldable pub xorshift128p : Rng → ℕ × Rng
xorshift128p r =
    let s = r.b in
    let t = bit_xor r.a (u64 (r.a * 2 ^ 23)) in
    let t' = bit_xor t (t / 2 ^ 17) in
    let t'' = bit_xor t' (bit_xor s (s / 2 ^ 26)) in (u64 (t'' + s), record { a = s; b = t'' })

-- An integer among [low, high).
unfoldable pub randint : ℕ → ℕ → Rng → ℕ × Rng
unfolding xorshift128p
randint low high r = let (x, s) = xorshift128p r in (u64 (x % u64 (high + 2 ^ 64 - low) + low), s)

scaled :
    (x low high : ℕ)
    → low < high
    → high < 2 ^ 64
    → let y = u64 (x % u64 (high + 2 ^ 64 - low) + low) in (low ≤ y) × (y < high)
scaled x low high h k =
    let span : u64 (high + 2 ^ 64 - low) ≡ high - low = omega arith in
    rw span (let small = mod-lt x {m = high - low} (omega arith) in (omega arith, omega arith))

-- Whatever the state, `Randint` answers a number from `low` on and below `high`.
pub randint_bounds :
    (low high : ℕ) (r : Rng)
    → low < high
    → high < 2 ^ 64
    → (low ≤ (randint low high r).0) × ((randint low high r).0 < high)
unfolding randint
randint_bounds low high r h k = scaled (xorshift128p r).0 low high h k

-- `Bernoulli(p)`, with MAX = 2 ^ 64 - 1.
unfoldable pub bernoulli : (c : Scalar) → c.Num → Rng → Bool × Rng
unfolding xorshift128p
bernoulli c p r =
    let (x, s) = xorshift128p r in (c.less (c.of_nat x) (c.mul p (c.of_nat (2 ^ 64 - 1))), s)

-- `RoundNextPow2` on a uint32_t.
unfoldable pub round_next_pow2 : ℕ → ℕ
round_next_pow2 v =
    let a = (v + 2 ^ 32 - 1) % 2 ^ 32 in
    let b = bit_or a (a / 2 ^ 1) in
    let c = bit_or b (b / 2 ^ 2) in
    let d = bit_or c (c / 2 ^ 4) in
    let e = bit_or d (d / 2 ^ 8) in let f = bit_or e (e / 2 ^ 16) in (f + 1) % 2 ^ 32
