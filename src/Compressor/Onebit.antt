-- ===== src/Compressor/Onebit.antt =====
-- OnebitCompressor of deep_inc/common/compressor/impl/onebit.cc. The tensors are memory, a function
-- from the index of a scalar: the code rounds the length up to whole words and reads and writes the
-- scalars behind the end too.
pub mod Signs
use deep_inc.Base.{
  ℕ, zero, suc, ◌+◌, ◌-◌, ◌*◌, ◌/◌, ◌%◌, ◌^◌, Bool, ltb, ◌==◌, if◌then◌else◌, update,
}
use deep_inc.Compressor.Scalar.{Scalar, sign_of}
use deep_inc.Compressor.Bits.{shift_in}

-- The words that `len` scalars take.
unfoldable pub chunks : ℕ → ℕ → ℕ
chunks w len = let padding_len = (w - len % w) % w in (len + padding_len) / w

-- The rounds of the loop: `chunk_len - 1`, a `size_t`, is narrowed to the `int` that counts down.
unfoldable pub rounds : ℕ → ℕ
rounds chunk_len = let i = (chunk_len + 2 ^ 64 - 1) % 2 ^ 32 in if ltb i (2 ^ 31) then i + 1 else 0

module _ (c : Scalar) where
  open c use {Num, of_nat, add, mul, div, abs, sub, less, to_single}

  pub record Packed : Type 0 where
    pub words : ℕ → ℕ
    pub chunk_len : ℕ
    pub scale : Num

  -- `for (size_t i = 0; i < n; ++i) sum += std::abs(src[i]);` from `i` on
  unfoldable pub abs_sum : (ℕ → Num) → ℕ → ℕ → Num → Num
  abs_sum src zero i sum = sum
  abs_sum src (suc n) i sum = abs_sum src n (i + 1) (add sum (abs (src i)))

  unfoldable pub scale_of : Bool → (ℕ → Num) → ℕ → Num
  unfolding abs_sum
  scale_of use_scale src len =
      if use_scale then to_single (div (abs_sum src len 0 (of_nat 0)) (of_nat len)) else of_nat 1

  unfoldable pub negative : (ℕ → Num) → ℕ → Bool
  negative src i = less (src i) (of_nat 0)

  -- `x <<= 1; x |= src[i] < 0`, n times.
  unfoldable pub pack_from : ℕ → (ℕ → Num) → ℕ → ℕ → ℕ → ℕ
  unfolding negative
  pack_from w src zero i x = x
  pack_from w src (suc n) i x = pack_from w src n (i + 1) (shift_in w x (negative src i))

  -- The first sign of a word starts it.
  unfoldable pub pack_word : ℕ → (ℕ → Num) → ℕ → ℕ
  unfolding pack_from
  pack_word w src i =
      let base = i * w in pack_from w src (w - 1) (base + 1) (if negative src base then 1 else 0)

  unfoldable pub pack_words : ℕ → (ℕ → Num) → ℕ → ℕ → (ℕ → ℕ) → ℕ → ℕ
  unfolding pack_word
  pack_words w src zero i dst = dst
  pack_words w src (suc n) i dst = pack_words w src n (i + 1) (update dst i (pack_word w src i))

  unfoldable pub compress : ℕ → Bool → (ℕ → Num) → ℕ → (ℕ → ℕ) → Packed
  unfolding chunks scale_of pack_words
  compress w use_scale src len dst = record {
    words = pack_words w src (chunks w len) 0 dst;
    chunk_len = chunks w len;
    scale = scale_of use_scale src len;
  }

  -- `for (int j = n - 1; j >= 0; --j)` over the bits of a word from the lowest on.
  unfoldable pub unpack_word : (ℕ → Bool → Num) → ℕ → ℕ → ℕ → (ℕ → Num) → ℕ → Num
  unpack_word f base zero x dst = dst
  unpack_word f base (suc j) x dst =
      unpack_word f base j (x / 2) (update dst (base + j) (f (base + j) (x % 2 == 1)))

  -- `for (int i = chunk_len - 1; i >= 0; --i)`
  unfoldable pub unpack_words : (ℕ → Bool → Num) → ℕ → (ℕ → ℕ) → ℕ → (ℕ → Num) → ℕ → Num
  unfolding unpack_word
  unpack_words f w words zero dst = dst
  unpack_words f w words (suc i) dst =
      unpack_words f w words i (unpack_word f (i * w) w (words i) dst)

  unfoldable pub decompress : ℕ → Packed → (ℕ → Num) → ℕ → Num
  unfolding unpack_words
  decompress w p dst =
      unpack_words (λ i bit. mul (sign_of c bit) p.scale) w p.words (rounds p.chunk_len) dst

  -- `((x & 0x01) << 1) - 1` is the opposite sign.
  unfoldable pub fast_update_error : ℕ → (ℕ → Num) → Packed → (ℕ → Num) → ℕ → Num
  unfolding unpack_words
  fast_update_error w corrected p error =
      unpack_words
        (λ i bit.
          add (corrected i) (mul (if bit then of_nat 1 else sub (of_nat 0) (of_nat 1)) p.scale))
        w p.words (rounds p.chunk_len) error
