-- ===== src/Compressor/Bits/Writer.antt =====
-- BitWriter of deep_inc/common/compressor/utils.h as the list of the bits that were put.
use mathlib.Core.List.{append_assoc, append-nil}
use native.Mathlib.Nat.{pow-succ', mul-add-div_right, div-eq_of_lt}
use deep_inc.Base.{
  ℕ, zero, suc, ◌+◌, ◌-◌, ◌*◌, ◌/◌, ◌^◌, ◌%◌, ◌<◌, ◌≡◌, refl, sym, ap, ◌∙◌, arith, Bool, List, [],
  ◌∷◌, ◌++◌, inl, inr, length, length-append, if◌then◌else◌, lt→ltb, dec_lt, Bool-cases, eq→==,
  ne→==, subst, ℕ_discrete, ◌≢◌, ltb,
}
use deep_inc.Compressor.Bits.{
  BitWriter, put_bit, shift_in, flush, bits, blocks, to_float, to_float_by, new_writer,
}
use deep_inc.Compressor.Bits.Words.{
  word_bits, word_bits-mod, word_bits_shift, word_bits-shl, half-mod, pow_pos, length-word_bits,
  length-cells_from, zeros, cells_from, cells_from_write,
}

-- What a writer has written: its whole words and the bits in its accumulator.
unfoldable pub written : ℕ → BitWriter → List Bool
unfolding cells_from word_bits
written w r = cells_from w r.dptr 0 r.blocks ++ word_bits r.used_bits r.accum

-- The accumulator holds less than a word.
unfoldable pub IsPartial : ℕ → BitWriter → Type 0
IsPartial w r = r.used_bits < w

pub shift_in-bits :
    (w k a : ℕ) (x : Bool) → k < w → word_bits (suc k) (shift_in w a x) ≡ word_bits k a ++ x ∷ []
unfolding shift_in
shift_in-bits zero k a x h = absurd (omega arith)
shift_in-bits (suc w) k a x h =
    let (half, low) = half-mod (a * 2) (2 ^ w) (pow_pos w) in
    let same : a * 2 / 2 ≡ a = omega arith in
    let kept : a * 2 / 2 % 2 ^ w ≡ a % 2 ^ w = ap (λ (t : ℕ). t % 2 ^ w) same in
    let cut : a * 2 % 2 ^ suc w ≡ a % 2 ^ w * 2 =
      rw (pow-succ' 2 w) (omega (arith, half, low, kept)) in
    rw (cut, word_bits_shift k (a % 2 ^ w) x, word_bits-mod k w a (omega arith)) refl

put_bit-IsPartial : (w : ℕ) (r : BitWriter) (x : Bool) → IsPartial w r → IsPartial w (put_bit w r x)
unfolding put_bit IsPartial
put_bit-IsPartial w r x h = ground arith

module _ (w : ℕ) (r : BitWriter) (x : Bool) (h : IsPartial w r) where
  filled : r.used_bits + 1 ≡ w → written w (put_bit w r x) ≡ written w r ++ x ∷ []
  unfolding put_bit written IsPartial
  filled e =
      let v = shift_in w r.accum x in
      let q : suc r.used_bits ≡ w = omega arith in
      let s : word_bits w v ≡ word_bits r.used_bits r.accum ++ x ∷ [] =
        subst (λ (n : ℕ). word_bits n v ≡ word_bits r.used_bits r.accum ++ x ∷ []) q
          (shift_in-bits w r.used_bits r.accum x h) in
      let n : suc r.blocks ≡ r.blocks + 1 = omega arith in
      rw (eq→== _ _ e, append-nil, ← n, cells_from_write w r.dptr v r.blocks, s, append_assoc) refl

  begun : r.used_bits + 1 ≢ w → written w (put_bit w r x) ≡ written w r ++ x ∷ []
  unfolding put_bit written IsPartial
  begun ne =
      let n : r.used_bits + 1 ≡ suc r.used_bits = omega arith in
      rw (ne→== _ _ ne, n, shift_in-bits w r.used_bits r.accum x h, append_assoc) refl

  -- `Put` appends its bit, and leaves less than a word in the accumulator.
  pub put_bit-written :
      (written w (put_bit w r x) ≡ written w r ++ x ∷ []) × IsPartial w (put_bit w r x)
  put_bit-written = (
    elim (ℕ_discrete (r.used_bits + 1) w) [ yes e ↦ filled e | no ne ↦ begun ne ],
    put_bit-IsPartial w r x h,
  )

-- A run of `Put`s.
unfoldable pub put_all : ℕ → List Bool → BitWriter → BitWriter
put_all w [] r = r
put_all w (x ∷ xs) r = put_all w xs (put_bit w r x)

pub put_all-written :
    (w : ℕ) (xs : List Bool) (r : BitWriter)
    → IsPartial w r
    → (written w (put_all w xs r) ≡ written w r ++ xs) × IsPartial w (put_all w xs r)
unfolding put_all
put_all-written w [] r h = (sym (append-nil _), h)
put_all-written w (x ∷ xs) r h =
    let (a, p) = put_bit-written w r x h in
    let (b, q) = put_all-written w xs (put_bit w r x) p in (rw (b, a, append_assoc) refl, q)

pub new_writer-written :
    (w : ℕ) (mem : ℕ → ℕ) → 0 < w → (written w (new_writer mem) ≡ []) × IsPartial w (new_writer mem)
unfolding written new_writer IsPartial
new_writer-written w mem h = (refl, h)

-- `bits()` counts the bits that were put.
pub bits-written : (w : ℕ) (r : BitWriter) → bits w r ≡ length (written w r)
unfolding bits written
bits-written w r = omega (
  arith,
  length-append (cells_from w r.dptr 0 r.blocks) (word_bits r.used_bits r.accum),
  length-cells_from w r.dptr 0 r.blocks,
  length-word_bits r.used_bits r.accum,
)

-- The words that a writer needs: one more if some bits are left over.
unfoldable pub words : BitWriter → ℕ
words r = if ltb 0 r.used_bits then r.blocks + 1 else r.blocks

last_word :
    (w k a : ℕ) → k < w → word_bits w (a * 2 ^ (w - k) % 2 ^ w) ≡ word_bits k a ++ zeros (w - k)
last_word w k a h =
    let e : k + (w - k) ≡ w = omega arith in
    let all : word_bits w (a * 2 ^ (w - k)) ≡ word_bits k a ++ zeros (w - k) =
      subst (λ (n : ℕ). word_bits n (a * 2 ^ (w - k)) ≡ word_bits k a ++ zeros (w - k)) e
        (word_bits-shl (w - k) k a) in
    word_bits-mod w w (a * 2 ^ (w - k)) (omega arith) ∙ all

-- After `Flush` the words of the memory hold the bits that were put, followed by zeros.
pub flush-cells :
    (w : ℕ) (r : BitWriter)
    → IsPartial w r
    → (n : ℕ) × (cells_from w (flush w r).dptr 0 (words r) ≡ written w r ++ zeros n)
unfolding flush written words IsPartial
flush-cells w r h = elim (Bool-cases (ltb 0 r.used_bits)) [
  | inl some_left ↦
      let a = r.accum * 2 ^ (w - r.used_bits) % 2 ^ w in
      let n : suc r.blocks ≡ r.blocks + 1 = omega arith in
      (
        w - r.used_bits,
        rw
            (
              some_left,
              ← n,
              cells_from_write w r.dptr a r.blocks,
              last_word w r.used_bits r.accum h,
              append_assoc,
            )
            refl,
      )
  | inr none_left ↦
      let e : r.used_bits ≡ 0 = ground arith in (0, rw (none_left, e, append-nil, append-nil) refl)
]

to_float_by_lem : (fuel n : ℕ) → n < 2 ^ 24 → to_float_by (suc fuel) 1 n ≡ n
unfolding to_float_by
to_float_by_lem fuel n h =
    let q : n / 1 ≡ n = omega arith in
    let r : n % 1 ≡ 0 = omega arith in rw (q, r, lt→ltb _ _ h) (omega arith)

to_float_lem : (n : ℕ) → n < 2 ^ 24 → to_float n ≡ n
unfolding to_float
to_float_lem n h = to_float_by_lem 63 n h

whole_words : (b w : ℕ) → 0 < w → (b * w + 0 + (w - 1)) / w ≡ b
whole_words b w h =
    let e : b * w + 0 + (w - 1) ≡ b * w + (w - 1) = omega arith in
    rw (e, mul-add-div_right h b (w - 1), div-eq_of_lt {n = w - 1} {m = w} (omega arith))
      (omega arith)

begun_word : (b w k : ℕ) → k < w → 0 < k → (b * w + k + (w - 1)) / w ≡ b + 1
begun_word b w k h p =
    let e : b * w + k + (w - 1) ≡ (b + 1) * w + (k - 1) = omega arith in
    rw
      (
        e,
        mul-add-div_right {m = w} (omega arith) (b + 1) (k - 1),
        div-eq_of_lt {n = k - 1} {m = w} (omega arith),
      )
      (omega arith)

-- Below 2 ^ 24 bits `blocks()` is the number of words that are needed.
pub blocks-words :
    (w : ℕ) (r : BitWriter) → IsPartial w r → bits w r < 2 ^ 24 → blocks w r ≡ words r
unfolding blocks words bits IsPartial
blocks-words w r h small =
    rw (to_float_lem (r.blocks * w + r.used_bits) small) (elim (dec_lt 0 r.used_bits) [
      | yes p ↦ rw (lt→ltb _ _ p) (begun_word r.blocks w r.used_bits h p)
      | no p ↦ let e : r.used_bits ≡ 0 = omega arith in rw e (whole_words r.blocks w (omega arith))
    ])

-- `Flush` changes neither count.
pub bits-flush : (w : ℕ) (r : BitWriter) → bits w (flush w r) ≡ bits w r
unfolding bits flush
bits-flush w r = elim (Bool-cases (ltb 0 r.used_bits)) [
  | inl left ↦ rw left refl
  | inr none_left ↦ rw none_left refl
]

pub blocks-flush : (w : ℕ) (r : BitWriter) → blocks w (flush w r) ≡ blocks w r
unfolding blocks
blocks-flush w r = ap (λ (n : ℕ). (to_float n + (w - 1)) / w) (bits-flush w r)
