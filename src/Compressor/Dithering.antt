-- ===== src/Compressor/Dithering.antt =====
-- DitheringCompressor of deep_inc/common/compressor/impl/dithering.cc. The words of the compressed
-- buffer and the `float` behind them are two views of one memory: no byte is read as both.
pub mod Entries
pub mod RoundTrip
pub mod Sent
use deep_inc.Base.{
  ℕ, zero, suc, ◌+◌, ◌-◌, ◌*◌, ◌/◌, ◌%◌, ◌^◌, Bool, true, false, ltb, ◌==◌, if◌then◌else◌, Result,
  ok, fail, undefined, leb, ◌&&◌, diverged, out_of_range, ◌>>=◌, List, [], ◌∷◌, get_elem?, set,
  Option, none, some, replicate, update,
}
use deep_inc.Compressor.Scalar.{Scalar, sign_of}
use deep_inc.Compressor.Random.{Rng, bernoulli, round_next_pow2, u64}
use deep_inc.Compressor.Bits.{
  BitWriter, BitReader, new_writer, new_reader, put_bit, flush, bits, blocks, get_bit, bits_read,
  bit,
}
use deep_inc.Compressor.Elias.{elias_delta_encode, elias_delta_decode}

pub data PartitionType : Type 0 where
  linear natural : PartitionType

pub data NormalizeType : Type 0 where
  max l2 : NormalizeType

pub record Settings : Type 0 where
  -- the bits of an index_t
  pub width : ℕ
  pub s : ℕ
  pub ptype : PartitionType
  pub ntype : NormalizeType

-- `size_t x = -1`
abbrev pub minus_one : ℕ
minus_one = 2 ^ 64 - 1

module _ (c : Scalar) where
  open c use {
    Num, of_nat, add, sub, mul, div, abs, sqrt, floor, ceil, signbit, less, to_single, to_nat,
  }

  pub record Packed : Type 0 where
    pub words : ℕ → ℕ
    pub floats : ℕ → Num
    -- in words: the size in bytes is this many words and a `float`
    pub size : ℕ

  unfoldable pub max_scale : Num → List Num → Num
  max_scale scale [] = scale
  max_scale scale (x ∷ xs) = max_scale (if less (abs x) scale then scale else abs x) xs

  unfoldable pub square_sum : Num → List Num → Num
  square_sum scale [] = scale
  square_sum scale (x ∷ xs) = square_sum (add scale (mul x x)) xs

  unfoldable pub scale_of : NormalizeType → List Num → Num
  unfolding max_scale square_sum
  scale_of max src = max_scale (of_nat 0) src
  scale_of l2 src = sqrt (square_sum (of_nat 0) src)

  -- The level of `x`, an `unsigned`, in the linear and in the natural partition.
  unfoldable pub linear_level : ℕ → Num → Num → Rng → ℕ × Rng
  linear_level s scale x r =
      let normalized = to_single (mul (div (to_single (abs x)) scale) (of_nat s)) in
      let low = to_single (floor normalized) in
      let (up, t) = bernoulli c (to_single (sub normalized low)) r in
      (to_nat (to_single (add low (of_nat (bit up)))) % 2 ^ 32, t)

  unfoldable pub natural_level : ℕ → Num → Num → Rng → ℕ × Rng
  natural_level level scale x r =
      let normalized = mul (div (to_single (abs x)) scale) (of_nat level) in
      let low = round_next_pow2 (to_nat (ceil normalized) % 2 ^ 32) / 2 in
      let length = if low == 0 then 1 else low in
      let p = div (sub normalized (of_nat low)) (of_nat length) in
      let (up, t) = bernoulli c p r in ((low + length * bit up) % 2 ^ 32, t)

  unfoldable pub quantize : PartitionType → ℕ → Num → Num → Rng → ℕ × Rng
  quantize linear s scale x r = linear_level s scale x r
  quantize natural s scale x r = natural_level s scale x r

  -- What is written of one entry: the distance from the last one, the sign and the level.
  unfoldable pub put_entry : ℕ → ℕ → Bool → ℕ → BitWriter → BitWriter
  put_entry w diff sign level b =
      elias_delta_encode w (put_bit w (elias_delta_encode w b diff) sign) level

  -- The loop over the entries from `i` on; `last` is last_non_zero_pos, a size_t that starts at -1.
  unfoldable pub compress_from :
      Settings → Num → List Num → ℕ → ℕ → Rng → BitWriter → BitWriter × Rng
  compress_from o scale [] i last r b = (b, r)
  compress_from o scale (x ∷ xs) i last r b =
      let (level, t) = quantize o.ptype o.s scale x r in
      compress_from o scale xs (i + 1) (if level == 0 then last else i) t
        (if level == 0 then b else put_entry o.width (u64 (i + 2 ^ 64 - last)) (signbit x) level b)

  -- The number of bits is stored as an index_t, the scale as a `float`.
  unfoldable pub compress_levels : Settings → (ℕ → ℕ) → (ℕ → Num) → List Num → Rng → Packed × Rng
  unfolding scale_of
  compress_levels o words floats src r =
      let scale = scale_of o.ntype src in
      let (b, t) = compress_from o scale src 0 minus_one r (new_writer words) in
      let f = flush o.width b in
      let n = blocks o.width f in
      (
        record {
          words = update f.dptr n (bits o.width f % 2 ^ o.width);
          floats = update floats (n + 1) (to_single scale);
          size = n + 1;
        },
        t,
      )

  -- `(1 - (signbit << 1)) * num` with `num = quantized * scale / s`.
  unfoldable pub decoded : Settings → Num → Bool → ℕ → Num
  decoded o scale sign level =
      let num = to_single (div (to_single (mul (of_nat level) scale)) (of_nat o.s)) in
      mul (sign_of c sign) num

  -- A read or a write of dst[i]; the code does not look at the length.
  unfoldable pub modify : (Num → Num) → ℕ → List Num → Result (List Num)
  modify f i dst = elim (get_elem? dst i) [
    | none ↦ fail out_of_range
    | some old ↦ ok (set dst i (f old))
  ]

  -- One entry: the position that follows `last`, the sign and the level.
  unfoldable pub get_entry : ℕ → BitReader → Result ((ℕ × Bool × ℕ) × BitReader)
  get_entry w r = elias_delta_decode w r >>= λ (diff, a). get_bit w a >>= λ (sign, b).
      elias_delta_decode w b >>= λ (level, d). ok ((diff, sign, level), d)

  -- `while (bit_reader.bits() < bits)`, with what is done to the entry as `f`.
  unfoldable pub decode_from :
      ℕ → Settings → (Num → Num → Num) → Num → ℕ → ℕ → BitReader → List Num → Result (List Num)
  decode_from zero o f scale n last r dst = fail diverged
  decode_from (suc fuel) o f scale n last r dst = elim (ltb (bits_read o.width r) n) [
    | false ↦ ok dst
    | true ↦ elim (get_entry o.width r) [
      | fail e ↦ fail e
      | ok ((diff, sign, level), t) ↦
          let i = u64 (last + diff) in
          elim (modify (λ old. f old (decoded o scale sign level)) i dst) [
            | fail e ↦ fail e
            | ok d ↦ decode_from fuel o f scale n i t d
          ]
    ]
  ]

  -- Each entry takes at least one bit.
  unfoldable pub decode : Settings → (Num → Num → Num) → Packed → List Num → Result (List Num)
  decode o f p dst =
      let blocks = p.size - 1 in
      let n = p.words blocks in
      decode_from (n + 1) o f (p.floats (blocks + 1)) n minus_one (new_reader p.words) dst

  -- The settings as the loops read them: `s` is the number of levels, which the natural partition
  -- makes by `1 << (_s - 1)`. For 0, where the difference wraps, and above 32 the shift is undefined.
  unfoldable pub levels : Settings → Result Settings
  levels o = elim o.ptype [
    | linear ↦ ok o
    | natural ↦
        if ltb 0 o.s && leb o.s 32 then ok (record o { s = 2 ^ (o.s - 1) }) else fail undefined
  ]

  unfoldable pub compress : Settings → (ℕ → ℕ) → (ℕ → Num) → List Num → Rng → Result (Packed × Rng)
  compress o words floats src r = levels o >>= λ l. ok (compress_levels l words floats src r)

  unfoldable pub decompress : Settings → ℕ → Packed → Result (List Num)
  unfolding decode
  decompress o len p = levels o >>= λ l. decode l (λ old num. num) p (replicate len (of_nat 0))

  unfoldable pub fast_update_error : Settings → List Num → Packed → Result (List Num)
  unfolding decode
  fast_update_error o corrected p = levels o >>= λ l. decode l sub p corrected
