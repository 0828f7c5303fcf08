-- ===== src/Compressor/Bits/Reader.antt =====
-- BitReader of deep_inc/common/compressor/utils.h as the list of the bits that it has still to read.
use native.Mathlib.Nat.{mod-lt, add-mul, pow-le-pow_right}
use deep_inc.Base.{
  ℕ, zero, suc, ◌+◌, ◌-◌, ◌*◌, ◌/◌, ◌^◌, ◌%◌, ◌≤◌, ◌<◌, ◌≡◌, refl, sym, ap, ◌∙◌, arith, Bool, List,
  [], ◌∷◌, ◌++◌, length, length-append, ◌==◌, ok, not, ℕ_discrete, ne→==, eq→==, ltb-false,
}
use deep_inc.Compressor.Bits.{BitReader, fetch, get_bit, masked, new_reader, bits_read}
use deep_inc.Compressor.Bits.Words.{
  word_bits, word_bits-mod, word_bits_head, pow_pos, cells_from, length-word_bits,
  length-cells_from,
}

-- A reader of the words up to `e` stands before the bits `xs`.
pub record StandsBefore (w e : ℕ) (xs : List Bool) (r : BitReader) : Type 0 where
  pub left : xs ≡ word_bits r.used_bits r.accum ++ cells_from w r.dptr r.blocks (e - r.blocks)
  pub within : r.used_bits ≤ w
  pub small : r.accum < 2 ^ w
  pub inside : r.blocks ≤ e
  pub begun : r.used_bits ≤ r.blocks * w

-- A word of at most 32 bits answers for its bit `k`.
masked_lem : (x k : ℕ) → k < 32 → x < 2 ^ 32 → masked x k ≡ ok (x / 2 ^ k % 2 == 1)
unfolding masked
masked_lem x k h small = elim (ℕ_discrete k 31) [
  | yes top ↦ rw top (ap ok (highest x small))
  | no low ↦ rw (ltb-false 31 k (λ p. omega arith), ne→== k 31 low) refl
]
  where
    highest : (y : ℕ) → y < 2 ^ 32 → not (y / 2 ^ 31 == 0) ≡ (y / 2 ^ 31 % 2 == 1)
    highest y h = ground arith

module _ (w e : ℕ) (x : Bool) (xs : List Bool) (r : BitReader) where
  refilled :
      (n : ℕ)
      → e - r.blocks ≡ n
      → r.used_bits ≡ 0
      → StandsBefore w e (x ∷ xs) r
      → StandsBefore w e
          (x ∷ xs)
          (record r { accum = r.dptr r.blocks % 2 ^ w; blocks = r.blocks + 1; used_bits = w })
  unfolding word_bits cells_from
  refilled zero n none_used s =
      absurd (let bad : x ∷ xs ≡ [] = s.left ∙ rw (none_used, n) refl in cc)
  refilled (suc k) n none_used s =
      let rest : e - (r.blocks + 1) ≡ k = omega arith in
      record {
        left =
            rw (word_bits-mod w w (r.dptr r.blocks) (omega arith), rest)
              (s.left ∙ rw (none_used, n) refl);
        within = omega arith;
        small = mod-lt (r.dptr r.blocks) (pow_pos w);
        inside = omega arith;
        begun = omega arith;
      }

  fetch-StandsBefore :
      0 < w
      → StandsBefore w e (x ∷ xs) r
      → StandsBefore w e (x ∷ xs) (fetch w r) × (0 < (fetch w r).used_bits)
  unfolding fetch
  fetch-StandsBefore h s = elim (ℕ_discrete r.used_bits 0) [
    | yes none_used ↦ rw (eq→== _ _ none_used) (refilled (e - r.blocks) refl none_used s, h)
    | no some_used ↦ rw (ne→== _ _ some_used) (s, omega arith)
  ]

-- What `Get` answers once a word is there.
take_bit :
    (w e k : ℕ) (x : Bool) (xs : List Bool) (s : BitReader)
    → w ≤ 32
    → s.used_bits ≡ suc k
    → StandsBefore w e (x ∷ xs) s
    → (masked s.accum k ≡ ok x) × StandsBefore w e xs (record s { used_bits = k })
take_bit w e k x xs s h used st =
    let rest = cells_from w s.dptr s.blocks (e - s.blocks) in
    let whole : x ∷ xs ≡ word_bits (suc k) s.accum ++ rest =
      st.left ∙ ap (λ (j : ℕ). word_bits j s.accum ++ rest) used in
    let split : x ∷ xs ≡ (s.accum / 2 ^ k % 2 == 1) ∷ (word_bits k s.accum ++ rest) =
      whole ∙ rw (word_bits_head k s.accum) refl in
    let head : x ≡ (s.accum / 2 ^ k % 2 == 1) = cc in
    let in32 : 2 ^ w ≤ 2 ^ 32 = pow-le-pow_right {n = 2} (omega arith) h in
    (
      rw head (masked_lem s.accum k (omega (arith, st.within)) (omega (arith, st.small))),
      record {
        left = cc;
        within = omega (arith, st.within);
        small = st.small;
        inside = st.inside;
        begun = omega (arith, st.begun);
      },
    )

-- `Get` reads the first of the bits that a reader stands before, and then stands before the others.
pub get_bit-StandsBefore :
    (w e : ℕ) (x : Bool) (xs : List Bool) (r : BitReader)
    → 0 < w
    → w ≤ 32
    → StandsBefore w e (x ∷ xs) r
    → (t : BitReader) × (get_bit w r ≡ ok (x, t)) × StandsBefore w e xs t
unfolding get_bit
get_bit-StandsBefore w e x xs r h h' s =
    let (st, p) = fetch-StandsBefore w e x xs r h s in
    let k = (fetch w r).used_bits - 1 in
    let (answer, after) = take_bit w e k x xs (fetch w r) h' (omega arith) st in
    (record (fetch w r) { used_bits = k }, rw (answer, get_bit) refl, after)

-- A new reader stands before all bits of the words.
pub new_reader-StandsBefore :
    (w e : ℕ) (mem : ℕ → ℕ) → StandsBefore w e (cells_from w mem 0 e) (new_reader mem)
unfolding new_reader word_bits
new_reader-StandsBefore w e mem = record {
  left = ap (cells_from w mem 0) (omega arith);
  within = omega arith;
  small = pow_pos w;
  inside = omega arith;
  begun = omega arith;
}

-- `bits()` of a reader counts the bits that it has read.
pub bits_read-StandsBefore :
    (w e : ℕ) (xs : List Bool) (r : BitReader)
    → StandsBefore w e xs r
    → bits_read w r + length xs ≡ e * w
unfolding bits_read
bits_read-StandsBefore w e xs r s =
    let rest = cells_from w r.dptr r.blocks (e - r.blocks) in
    let all : (e - r.blocks) * w + r.blocks * w ≡ e * w =
      sym (add-mul (e - r.blocks) r.blocks w) ∙ ap (λ (n : ℕ). n * w) (omega (arith, s.inside)) in
    omega (
      arith,
      all,
      ap length s.left,
      length-append (word_bits r.used_bits r.accum) rest,
      length-word_bits r.used_bits r.accum,
      length-cells_from w r.dptr r.blocks (e - r.blocks),
      s.begun,
    )
