-- ===== src/Compressor/Bits.antt =====
-- BitWriter and BitReader of deep_inc/common/compressor/utils.h, over words of `w` bits. The memory
-- behind `_dptr` is a function from the index of a word; a word is a number below 2 ^ w.
pub mod Words
pub mod Writer
pub mod Reader
pub mod Stream
use deep_inc.Base.{
  ℕ, suc, ◌+◌, ◌-◌, ◌*◌, ◌/◌, ◌%◌, ◌^◌, Bool, not, ◌==◌, ltb, ◌&&◌, ◌||◌, if◌then◌else◌, zero,
  update, Result, ok, fail, undefined,
}

pub record BitWriter : Type 0 where
  pub dptr : ℕ → ℕ
  pub accum : ℕ
  pub used_bits : ℕ
  pub blocks : ℕ

pub record BitReader : Type 0 where
  pub dptr : ℕ → ℕ
  pub used_bits : ℕ
  pub blocks : ℕ
  pub accum : ℕ

abbrev pub bit : Bool → ℕ
bit x = if x then 1 else 0

unfoldable pub new_writer : (ℕ → ℕ) → BitWriter
new_writer mem = record { dptr = mem; accum = 0; used_bits = 0; blocks = 0 }

-- The accumulator of a new reader is not initialized, but it is fetched before it is read.
unfoldable pub new_reader : (ℕ → ℕ) → BitReader
new_reader mem = record { dptr = mem; used_bits = 0; blocks = 0; accum = 0 }

-- `_accum` shifted left, cut to the word, with the new bit in the lowest place.
unfoldable pub shift_in : ℕ → ℕ → Bool → ℕ
shift_in w a x = a * 2 % 2 ^ w + bit x

unfoldable pub put_bit : ℕ → BitWriter → Bool → BitWriter
put_bit w r x =
    let accum = shift_in w r.accum x in
    if r.used_bits + 1 == w
    then (record r {
      dptr = update r.dptr r.blocks accum;
      accum = accum;
      used_bits = 0;
      blocks = r.blocks + 1;
    })
    else (record r { accum = accum; used_bits = r.used_bits + 1 })

unfoldable pub flush : ℕ → BitWriter → BitWriter
flush w r =
    if ltb 0 r.used_bits
    then (let accum = r.accum * 2 ^ (w - r.used_bits) % 2 ^ w in
        record r { dptr = update r.dptr r.blocks accum; accum = accum })
    else r

unfoldable pub bits : ℕ → BitWriter → ℕ
bits w r = r.blocks * w + r.used_bits

-- A number that is converted to `float`: the nearest one with 24 significant bits, and the one with
-- an even last bit of two that are as near. `unit` is the weight of the last bit; the fuel is the
-- number of bits that can be cut off a size_t.
unfoldable pub to_float_by : ℕ → ℕ → ℕ → ℕ
to_float_by zero unit n = n
to_float_by (suc fuel) unit n =
    let wider = to_float_by fuel (unit * 2) n in
    let q = n / unit in
    let rest = n % unit in
    if ltb q (2 ^ 24)
    then (if ltb unit (rest * 2) || ((rest * 2 == unit) && (q % 2 == 1))
        then (q + 1) * unit
        else q * unit)
    else wider

unfoldable pub to_float : ℕ → ℕ
unfolding to_float_by
to_float n = to_float_by 64 1 n

-- `blocks()`: the ceiling of a quotient of floats. The divisor is a power of two, so the quotient of
-- the converted number is exact.
unfoldable pub blocks : ℕ → BitWriter → ℕ
unfolding to_float bits
blocks w r = (to_float (bits w r) + (w - 1)) / w

-- `x & (1 << k)` as a truth value. `1 << k` is shifted as an `int`, of 32 bits: from k = 32 on that
-- is undefined, and at k = 31 it is negative and selects every bit of a wide word from there on.
unfoldable pub masked : ℕ → ℕ → Result Bool
masked x k =
    if ltb 31 k
    then fail undefined
    else ok (if k == 31 then not (x / 2 ^ 31 == 0) else (x / 2 ^ k % 2 == 1))

-- `Get` takes the next word if the last one is used up, and reads the highest bit that is left. A
-- load is of `w` bits.
unfoldable pub fetch : ℕ → BitReader → BitReader
fetch w r =
    if r.used_bits == 0
    then (record r { accum = r.dptr r.blocks % 2 ^ w; blocks = r.blocks + 1; used_bits = w })
    else r

unfoldable pub get_bit : ℕ → BitReader → Result (Bool × BitReader)
unfolding fetch masked
get_bit w r =
    let s = fetch w r in
    let left = s.used_bits - 1 in
    elim (masked s.accum left) [ fail e ↦ fail e | ok x ↦ ok (x, record s { used_bits = left }) ]

unfoldable pub bits_read : ℕ → BitReader → ℕ
bits_read w r = r.blocks * w - r.used_bits
