-- ===== src/Compressor/Elias.antt =====
-- EliasDeltaEncode and EliasDeltaDecode of deep_inc/common/compressor/utils.h.
pub mod Length
pub mod Code
pub mod RoundTrip
use deep_inc.Base.{
  ℕ, zero, suc, ◌+◌, ◌-◌, ◌*◌, ◌/◌, ◌%◌, ◌^◌, Bool, true, false, ltb, ◌==◌, if◌then◌else◌, Result,
  ok, fail, undefined, ◌>>=◌,
}
use deep_inc.Compressor.Bits.{BitWriter, BitReader, put_bit, get_bit, bit}

-- `std::floor(std::log2(x))` for 0 < x < 2 ^ 48, where the rounding of the logarithm to a `double`
-- does not reach the next integer.
unfoldable pub log2_by : ℕ → ℕ → ℕ
log2_by zero x = 0
log2_by (suc fuel) x = let higher = suc (log2_by fuel (x / 2)) in if ltb x 2 then 0 else higher

unfoldable pub log2 : ℕ → ℕ
unfolding log2_by
log2 x = log2_by x x

-- `for (int i = n; i > 0; --i) bit_writer.Put(0);`
unfoldable pub put_zeros : ℕ → ℕ → BitWriter → BitWriter
put_zeros w zero r = r
put_zeros w (suc n) r = put_zeros w n (put_bit w r false)

-- `for (int i = n - 1; i >= 0; --i) bit_writer.Put((v >> i) & 1);`
unfoldable pub put_low : ℕ → ℕ → ℕ → BitWriter → BitWriter
put_low w zero v r = r
put_low w (suc i) v r = put_low w i v (put_bit w r (v / 2 ^ i % 2 == 1))

unfoldable pub elias_delta_encode : ℕ → BitWriter → ℕ → BitWriter
unfolding log2 put_zeros put_low
elias_delta_encode w r x =
    let len = 1 + log2 x in
    let length_of_len = log2 len in
    put_low w (len - 1) x (put_low w (length_of_len + 1) len (put_zeros w length_of_len r))

-- `while (!bit_reader.Get()) lenth_of_len++;` The reader goes on behind the buffer until it meets
-- a 1; a count of 2 ^ 31 zeros overflows the `int`, which is undefined.
unfoldable pub count_zeros : ℕ → ℕ → BitReader → ℕ → Result (ℕ × BitReader)
count_zeros zero w r n = fail undefined
count_zeros (suc fuel) w r n =
    get_bit w r >>= λ (x, s). elim x [ true ↦ ok (n, s) | false ↦ count_zeros fuel w s (n + 1) ]

-- `len <<= 1; if (bit_reader.Get()) len |= 1;`, n times. An `int` that grows past 31 bits is
-- undefined.
unfoldable pub read_int : ℕ → ℕ → BitReader → ℕ → Result (ℕ × BitReader)
read_int zero w r acc = ok (acc, r)
read_int (suc n) w r acc =
    let shifted = acc * 2 in
    if ltb shifted (2 ^ 31)
    then (get_bit w r >>= λ (x, s). read_int n w s (shifted + bit x))
    else fail undefined

-- The same for the `unsigned long`, which wraps.
unfoldable pub read_ulong : ℕ → ℕ → BitReader → ℕ → Result (ℕ × BitReader)
read_ulong zero w r acc = ok (acc, r)
read_ulong (suc n) w r acc = get_bit w r >>= λ (x, s). read_ulong n w s (acc * 2 % 2 ^ 64 + bit x)

unfoldable pub elias_delta_decode : ℕ → BitReader → Result (ℕ × BitReader)
unfolding count_zeros read_int read_ulong
elias_delta_decode w r = count_zeros (2 ^ 31) w r 0 >>= λ (n, s).
    read_int n w s 1 >>= λ (len, t). read_ulong (len - 1) w t 1
