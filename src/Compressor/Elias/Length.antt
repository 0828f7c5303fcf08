-- ===== src/Compressor/Elias/Length.antt =====
-- The bit length that the codes of deep_inc/common/compressor/utils.h take from std::log2.
use native.Mathlib.Nat.{pow-succ', div-one}
use deep_inc.Base.{ℕ, zero, suc, ◌/◌, ◌^◌, ◌≤◌, ◌<◌, ◌≡◌, arith, ltb-false, lt→ltb, dec_lt}
use deep_inc.Compressor.Elias.{log2, log2_by}
use deep_inc.Compressor.Bits.Words.{half-div}

log2_by_top : (fuel x : ℕ) → 0 < x → x ≤ fuel → x / 2 ^ log2_by fuel x ≡ 1
unfolding log2_by
log2_by_top zero x h b = absurd (omega arith)
log2_by_top (suc fuel) x h b = elim (dec_lt x 2) [
  | yes small ↦ rw (lt→ltb x 2 small, div-one) (omega arith)
  | no large ↦
      rw (ltb-false x 2 large, pow-succ' 2, half-div x (2 ^ log2_by fuel (x / 2)))
        (log2_by_top fuel (x / 2) (omega arith) (omega arith))
]

-- The highest bit of `x` is its bit `log2 x`.
pub log2_top : (x : ℕ) → 0 < x → x / 2 ^ log2 x ≡ 1
unfolding log2
log2_top x h = log2_by_top x x h (omega arith)

log2_by-lt : (fuel k x : ℕ) → x < 2 ^ suc k → log2_by fuel x < suc k
unfolding log2_by
log2_by-lt zero k x h = omega arith
log2_by-lt (suc fuel) zero x h = rw (lt→ltb x 2 (omega arith)) (omega arith)
log2_by-lt (suc fuel) (suc k) x h = elim (dec_lt x 2) [
  | yes small ↦ rw (lt→ltb x 2 small) (omega arith)
  | no large ↦
      rw (ltb-false x 2 large)
        (omega (arith, log2_by-lt fuel k (x / 2) (omega (arith, pow-succ' 2 (suc k)))))
]

pub log2-lt : (k x : ℕ) → x < 2 ^ suc k → log2 x < suc k
unfolding log2
log2-lt k x h = log2_by-lt x k x h
