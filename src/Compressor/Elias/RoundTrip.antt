-- ===== src/Compressor/Elias/RoundTrip.antt =====
-- EliasDeltaDecode of deep_inc/common/compressor/utils.h reads back what EliasDeltaEncode wrote.
use mathlib.Core.List.{append_assoc}
use native.Mathlib.Nat.{pow-suc, div-div-eq-div-mul, mod-eq_of_lt, div-one, div-le_self}
use deep_inc.Base.{
  ℕ, zero, suc, ◌+◌, ◌-◌, ◌*◌, ◌/◌, ◌%◌, ◌^◌, ◌≤◌, ◌<◌, ◌≡◌, refl, sym, Bool, true, false, List,
  ◌∷◌, ◌++◌, ◌==◌, ◌∙◌, ap, arith, ltb, lt→ltb, Result, ok,
}
use deep_inc.Compressor.Bits.{BitReader, bit}
use deep_inc.Compressor.Bits.Words.{word_bits, word_bits_head, zeros}
use deep_inc.Compressor.Bits.Reader.{StandsBefore, get_bit-StandsBefore}
use deep_inc.Compressor.Elias.{count_zeros, read_int, read_ulong, elias_delta_decode, log2}
use deep_inc.Compressor.Elias.Code.{code}
use deep_inc.Compressor.Elias.Length.{log2_top, log2-lt}

-- A step that reads `xs` and gives `a`, whatever follows.
abbrev pub Reads {ℓ} : {A : Type ℓ} → ℕ → ℕ → List Bool → Result (A × BitReader) → A → Type ℓ
Reads w e rest step a = (t : BitReader) × (step ≡ ok (a, t)) × StandsBefore w e rest t

-- A bit appended to the higher bits of a number gives one bit more of it.
shift_bit : (v k : ℕ) → v / 2 ^ suc k * 2 + bit (v / 2 ^ k % 2 == 1) ≡ v / 2 ^ k
shift_bit v k =
    let e : v / 2 ^ suc k ≡ v / 2 ^ k / 2 =
      rw (pow-suc 2 k) (sym (div-div-eq-div-mul v (2 ^ k) 2)) in
    rw e (low (v / 2 ^ k))
  where
    low : (q : ℕ) → q / 2 * 2 + bit (q % 2 == 1) ≡ q
    low q = ground arith

exponent : (x : ℕ) → 1 + log2 x - 1 ≡ log2 x
exponent x = omega arith

-- A code word ends its zeros with the highest bit of the length.
code_split :
    (x : ℕ) (rest : List Bool)
    → 0 < x
    → let len = 1 + log2 x in
      let n = log2 len in
      code x ++ rest ≡ zeros n ++ true ∷ (word_bits n len ++ (word_bits (len - 1) x ++ rest))
unfolding code
code_split x rest p =
    let len = 1 + log2 x in
    let n = log2 len in
    let top : len / 2 ^ n ≡ 1 = log2_top len (omega arith) in
    let next : n + 1 ≡ suc n = omega arith in
    let first : word_bits (n + 1) len ≡ true ∷ word_bits n len =
      rw next (word_bits_head n len ∙ rw top refl) in
    rw (first, append_assoc, append_assoc) refl

module _ (w e : ℕ) (pos : 0 < w) (narrow : w ≤ 32) where
  count_zeros-Reads :
      (fuel n k : ℕ) (rest : List Bool) (r : BitReader)
      → n < fuel
      → StandsBefore w e (zeros n ++ true ∷ rest) r
      → Reads w e rest (count_zeros fuel w r k) (n + k)
  unfolding count_zeros
  count_zeros-Reads zero n k rest r h s = absurd (omega arith)
  count_zeros-Reads (suc fuel) zero k rest r h s =
      let (t, answer, st) = get_bit-StandsBefore w e true rest r pos narrow s in
      (t, rw (answer, count_zeros) (ap (λ (j : ℕ). ok (j, t)) (omega arith)), st)
  count_zeros-Reads (suc fuel) (suc n) k rest r h s =
      let (t, answer, st) =
        get_bit-StandsBefore w e false (zeros n ++ true ∷ rest) r pos narrow s in
      let (u, run, last) = count_zeros-Reads fuel n (k + 1) rest t (omega arith) st in
      (u, rw (answer, count_zeros) (run ∙ ap (λ (j : ℕ). ok (j, u)) (omega arith)), last)

  read_int-Reads :
      (n v : ℕ) (rest : List Bool) (r : BitReader)
      → v < 2 ^ 31
      → StandsBefore w e (word_bits n v ++ rest) r
      → Reads w e rest (read_int n w r (v / 2 ^ n)) v
  unfolding read_int word_bits
  read_int-Reads zero v rest r h s = (r, rw div-one refl, s)
  read_int-Reads (suc n) v rest r h s =
      let x = v / 2 ^ n % 2 == 1 in
      let (t, answer, st) =
        get_bit-StandsBefore w e x (word_bits n v ++ rest) r pos narrow
          (rw (word_bits_head n v) at s) in
      let (u, run, last) = read_int-Reads n v rest t h st in
      let bound = div-le_self v (2 ^ n) in
      let room : ltb (v / 2 ^ suc n * 2) (2 ^ 31) ≡ true =
        lt→ltb _ _ (omega (arith, shift_bit v n)) in
      (u, rw (room, answer, shift_bit v n) run, last)

  read_ulong-Reads :
      (n v : ℕ) (rest : List Bool) (r : BitReader)
      → v < 2 ^ 64
      → StandsBefore w e (word_bits n v ++ rest) r
      → Reads w e rest (read_ulong n w r (v / 2 ^ n)) v
  unfolding read_ulong word_bits
  read_ulong-Reads zero v rest r h s = (r, rw div-one refl, s)
  read_ulong-Reads (suc n) v rest r h s =
      let x = v / 2 ^ n % 2 == 1 in
      let (t, answer, st) =
        get_bit-StandsBefore w e x (word_bits n v ++ rest) r pos narrow
          (rw (word_bits_head n v) at s) in
      let (u, run, last) = read_ulong-Reads n v rest t h st in
      let bound = div-le_self v (2 ^ n) in
      let room : v / 2 ^ suc n * 2 % 2 ^ 64 ≡ v / 2 ^ suc n * 2 =
        mod-eq_of_lt (omega (arith, shift_bit v n)) in
      (u, rw (answer, read_ulong, room, shift_bit v n) run, last)

  -- EliasDeltaDecode reads the number that the code word stands for, and leaves what follows it.
  pub elias_delta_decode-code :
      (x : ℕ) (rest : List Bool) (r : BitReader)
      → 0 < x
      → x < 2 ^ 32
      → StandsBefore w e (code x ++ rest) r
      → Reads w e rest (elias_delta_decode w r) x
  unfolding elias_delta_decode code
  elias_delta_decode-code x rest r p h s =
      let len = 1 + log2 x in
      let n = log2 len in
      let top : len / 2 ^ n ≡ 1 = log2_top len (omega arith) in
      let len_small : len < 2 ^ 6 = omega (arith, log2-lt 31 x h) in
      let short : n < 6 = log2-lt 5 len len_small in
      let (t, counted, st) =
        count_zeros-Reads (2 ^ 31) n 0 (word_bits n len ++ (word_bits (len - 1) x ++ rest)) r
          (omega arith) (rw (code_split x rest p) at s) in
      let (u, int_read, su) =
        read_int-Reads n len (word_bits (len - 1) x ++ rest) t (omega arith) st in
      let (v, ulong_read, sv) = read_ulong-Reads (len - 1) x rest u (omega arith) su in
      let z : n + 0 ≡ n = omega arith in
      let top_x : x / 2 ^ (len - 1) ≡ 1 = rw (exponent x) (log2_top x p) in
      (v, rw (counted, z, rw top at int_read, rw top_x at ulong_read) refl, sv)
