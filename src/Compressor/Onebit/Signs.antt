-- ===== src/Compressor/Onebit/Signs.antt =====
-- The signs that deep_inc/common/compressor/impl/onebit.cc packs are the signs that it unpacks.
use mathlib.Core.List.{append_assoc, append-nil}
use native.Mathlib.Nat.{
  div-add-mod', mod-lt, mod-eq_of_lt, mod_self, sub-zero, mul-div_cancel, lt_of_mul-lt-mul_right,
  div-mul-le_self,
}
use deep_inc.Base.{
  ℕ, zero, suc, ◌+◌, ◌-◌, ◌*◌, ◌/◌, ◌%◌, ◌^◌, ◌≤◌, ◌<◌, ◌≡◌, ◌∙◌, refl, sym, ap, subst, arith, Bool,
  true, false, List, [], ◌∷◌, ◌++◌, length, get_or, update, update_self, update_ne, ◌==◌,
  if◌then◌else◌, ℕ_discrete,
}
use deep_inc.Compressor.Scalar.{Scalar, sign_of}
use deep_inc.Compressor.Bits.{shift_in}
use deep_inc.Compressor.Bits.Words.{word_bits, length-word_bits}
use deep_inc.Compressor.Bits.Writer.{shift_in-bits}
use deep_inc.Compressor.Onebit.{
  rounds, negative, pack_from, pack_word, pack_words, unpack_word, unpack_words, chunks, compress,
  decompress, fast_update_error,
}

module _ {A : Type 0} (d : A) where
  get_or-append_left :
      (xs ys : List A) (i : ℕ) → i < length xs → get_or (xs ++ ys) i d ≡ get_or xs i d
  get_or-append_left [] ys i h = absurd (omega arith)
  get_or-append_left (x ∷ xs) ys zero h = refl
  get_or-append_left (x ∷ xs) ys (suc i) h = get_or-append_left xs ys i (omega arith)

  get_or-append_here : (xs : List A) (y : A) (i : ℕ) → i ≡ length xs → get_or (xs ++ y ∷ []) i d ≡ y
  get_or-append_here [] y zero h = refl
  get_or-append_here [] y (suc i) h = absurd (omega arith)
  get_or-append_here (x ∷ xs) y zero h = absurd (omega arith)
  get_or-append_here (x ∷ xs) y (suc i) h = get_or-append_here xs y i (omega arith)

-- The words cover the scalars.
pub chunks-cover : (w len : ℕ) → 0 < w → len ≤ chunks w len * w
unfolding chunks
chunks-cover w len h = elim (ℕ_discrete (len % w) 0) [
  | yes full ↦
      let none_left : (w - len % w) % w ≡ 0 = rw full (rw sub-zero (mod_self w)) in
      let e : len + 0 ≡ len / w * w = omega (arith, div-add-mod' len w) in
      rw (none_left, e, mul-div_cancel (len / w) h) (omega (arith, div-add-mod' len w))
  | no some_left ↦
      let r = len % w in
      let pad : (w - r) % w ≡ w - r = mod-eq_of_lt (omega (arith, mod-lt len h)) in
      let e : len + (w - r) ≡ (len / w + 1) * w = omega (arith, div-add-mod' len w, mod-lt len h) in
      rw (pad, e, mul-div_cancel (len / w + 1) h) (omega (arith, div-add-mod' len w, mod-lt len h))
]

module _ (c : Scalar) where
  signs : (ℕ → c.Num) → ℕ → ℕ → List Bool
  signs src i zero = []
  signs src i (suc n) = negative c src i ∷ signs src (i + 1) n

  get_or-signs :
      (src : ℕ → c.Num) (i n j : ℕ)
      → j < n
      → get_or (signs src i n) j false ≡ negative c src (i + j)
  unfolding signs
  get_or-signs src i zero j h = absurd (omega arith)
  get_or-signs src i (suc n) zero h = ap (negative c src) (omega arith)
  get_or-signs src i (suc n) (suc j) h =
      get_or-signs src (i + 1) n j (omega arith) ∙ ap (negative c src) (omega arith)

  -- With `k` bits in the word, the next `n` signs make up a word of `k + n` bits.
  pack_from-bits :
      (w : ℕ) (src : ℕ → c.Num) (n k i x : ℕ)
      → k + n ≤ w
      → word_bits (k + n) (pack_from c w src n i x) ≡ word_bits k x ++ signs src i n
  unfolding pack_from signs
  pack_from-bits w src zero k i x h = let e : k + 0 ≡ k = omega arith in rw (e, append-nil) refl
  pack_from-bits w src (suc n) k i x h =
      let e : k + suc n ≡ suc k + n = omega arith in
      rw e (
        pack_from-bits w src n (suc k) (i + 1) (shift_in w x (negative c src i)) (omega arith)
        ∙ rw (shift_in-bits w k x (negative c src i) (omega arith), append_assoc) refl)

  one_bit : (b : Bool) → word_bits 1 (if b then 1 else 0) ≡ b ∷ []
  unfolding word_bits
  one_bit true = refl
  one_bit false = refl

  pack_word-bits :
      (w : ℕ) (src : ℕ → c.Num) (i : ℕ)
      → 0 < w
      → word_bits w (pack_word c w src i) ≡ signs src (i * w) w
  unfolding pack_word signs
  pack_word-bits zero src i h = absurd (omega arith)
  pack_word-bits (suc v) src i h =
      let b = i * suc v in
      let e : suc v - 1 ≡ v = omega arith in
      let n : 1 + v ≡ suc v = omega arith in
      let first = negative c src b in
      let x : ℕ = if first then 1 else 0 in
      rw e (
        subst (λ (m : ℕ). word_bits m (pack_from c (suc v) src v (b + 1) x) ≡ signs src b (suc v)) n
          (pack_from-bits (suc v) src v 1 (b + 1) x (omega arith) ∙ rw (one_bit first) refl))

  pack_words-other :
      (w : ℕ) (src : ℕ → c.Num) (n i : ℕ) (dst : ℕ → ℕ) (k : ℕ)
      → k < i
      → pack_words c w src n i dst k ≡ dst k
  unfolding pack_words
  pack_words-other w src zero i dst k h = refl
  pack_words-other w src (suc n) i dst k h =
      pack_words-other w src n (i + 1) (update dst i (pack_word c w src i)) k (omega arith)
      ∙ update_ne dst i (pack_word c w src i) k (λ e. omega arith)

  pack_words-get :
      (w : ℕ) (src : ℕ → c.Num) (n i : ℕ) (dst : ℕ → ℕ) (k : ℕ)
      → i ≤ k
      → k < i + n
      → pack_words c w src n i dst k ≡ pack_word c w src k
  unfolding pack_words
  pack_words-get w src zero i dst k h p = absurd (omega arith)
  pack_words-get w src (suc n) i dst k h p =
      let dst' = update dst i (pack_word c w src i) in
      elim (ℕ_discrete i k) [
        | yes e ↦
            pack_words-other w src n (i + 1) dst' k (omega arith)
            ∙ rw (← e) (update_self dst i (pack_word c w src i))
        | no ne ↦ pack_words-get w src n (i + 1) dst' k (omega arith) (omega arith)
      ]

  module _ (f : ℕ → Bool → c.Num) where
    -- A word is unpacked into its own scalars,
    unpack_word-other :
        (base k x : ℕ) (dst : ℕ → c.Num) (t : ℕ)
        → ¬ ((base ≤ t) × (t < base + k))
        → unpack_word c f base k x dst t ≡ dst t
    unfolding unpack_word
    unpack_word-other base zero x dst t h = refl
    unpack_word-other base (suc k) x dst t h =
        let e = f (base + k) (x % 2 == 1) in
        unpack_word-other base k (x / 2) (update dst (base + k) e) t (λ p. h (omega arith))
        ∙ update_ne dst (base + k) e t (λ q. h (omega arith))

    -- the scalar `j` from its bit `j`.
    unpack_word-get :
        (base k x : ℕ) (dst : ℕ → c.Num) (j : ℕ)
        → j < k
        → unpack_word c f base k x dst (base + j) ≡ f (base + j) (get_or (word_bits k x) j false)
    unfolding unpack_word word_bits
    unpack_word-get base zero x dst j h = absurd (omega arith)
    unpack_word-get base (suc k) x dst j h =
        let v = f (base + k) (x % 2 == 1) in
        let size = length-word_bits k (x / 2) in
        elim (ℕ_discrete j k) [
          | yes last ↦ rw last (
              unpack_word-other base k (x / 2) (update dst (base + k) v) (base + k)
                (λ p. omega arith)
              ∙ update_self dst (base + k) v
              ∙ ap (f (base + k))
                  (sym (get_or-append_here false (word_bits k (x / 2)) (x % 2 == 1) k (sym size))))
          | no before ↦
              unpack_word-get base k (x / 2) (update dst (base + k) v) j (omega arith)
              ∙ ap (f (base + j)) (
                  sym (
                    get_or-append_left false (word_bits k (x / 2)) ((x % 2 == 1) ∷ []) j
                      (omega arith)))
        ]

    pub unpack_words-other :
        (w : ℕ) (words : ℕ → ℕ) (n : ℕ) (dst : ℕ → c.Num) (t : ℕ)
        → n * w ≤ t
        → unpack_words c f w words n dst t ≡ dst t
    unfolding unpack_words
    unpack_words-other w words zero dst t h = refl
    unpack_words-other w words (suc n) dst t h =
        let e : suc n * w ≡ n * w + w = grind arith in
        unpack_words-other w words n (unpack_word c f (n * w) w (words n) dst) t (omega arith)
        ∙ unpack_word-other (n * w) w (words n) dst t (λ p. omega arith)

    unpack_words-get :
        (w : ℕ) (words : ℕ → ℕ) (n i j : ℕ) (dst : ℕ → c.Num)
        → i < n
        → j < w
        → unpack_words c f w words n dst (i * w + j)
          ≡ f (i * w + j) (get_or (word_bits w (words i)) j false)
    unfolding unpack_words
    unpack_words-get w words zero i j dst h p = absurd (omega arith)
    unpack_words-get w words (suc n) i j dst h p =
        let rest = unpack_word c f (n * w) w (words n) dst in
        elim (ℕ_discrete i n) [
          | yes last ↦ rw last (
              unpack_words-other w words n rest (n * w + j) (omega arith)
              ∙ unpack_word-get (n * w) w (words n) dst j p)
          | no before ↦ unpack_words-get w words n i j rest (omega arith) p
        ]

  -- What is unpacked from the words of `compress` goes by the signs of its source.
  pub sent :
      (f : ℕ → Bool → c.Num) (w len t : ℕ) (use_scale : Bool) (src : ℕ → c.Num) (words : ℕ → ℕ)
      (dst : ℕ → c.Num)
      → 0 < w
      → t < len
      → unpack_words c f w (compress c w use_scale src len words).words (chunks w len) dst t
        ≡ f t (negative c src t)
  unfolding compress
  sent f w len t use_scale src words dst h p =
      let i = t / w in
      let j = t % w in
      let e : i * w + j ≡ t = div-add-mod' t w in
      let small = mod-lt t h in
      let q : i < chunks w len =
        lt_of_mul-lt-mul_right w (omega (arith, chunks-cover w len h, div-mul-le_self t w)) in
      let words' = pack_words c w src (chunks w len) 0 words in
      subst (λ (k : ℕ). unpack_words c f w words' (chunks w len) dst k ≡ f k (negative c src k)) e
        (unpack_words-get f w words' (chunks w len) i j dst q small
          ∙ rw
              (
                pack_words-get w src (chunks w len) 0 words i (omega arith) (omega arith),
                pack_word-bits w src i h,
                get_or-signs src (i * w) w j small,
              )
              refl)

rounds-exact : (n : ℕ) → n ≤ 2 ^ 31 → rounds n ≡ n
unfolding rounds
rounds-exact zero h = refl
rounds-exact (suc n) h = ground (arith, h)

-- For words of at least one bit, a tensor that takes at most 2 ^ 31 words and any arithmetic of the
-- scalars, `Decompress` of what onebit's `Compress` wrote gives each scalar of the tensor the sent
-- scale times -1 if it is below 0 and times 1 otherwise, and leaves the memory behind the last
-- whole word as it was; and `FastUpdateError` gives each scalar plus the opposite: the scale times
-- 1 if it is below 0 and times -1 otherwise.
pub onebit_round_trip :
    (c : Scalar) (w len : ℕ) (use_scale : Bool) (src dst : ℕ → c.Num) (words : ℕ → ℕ)
    → 0 < w
    → chunks w len ≤ 2 ^ 31
    → let p = compress c w use_scale src len words in
      let minus = c.sub (c.of_nat 0) (c.of_nat 1) in
      ((t : ℕ)
        → t < len
        → decompress c w p dst t
          ≡ c.mul (if c.less (src t) (c.of_nat 0) then minus else c.of_nat 1) p.scale)
      × ((t : ℕ) → chunks w len * w ≤ t → decompress c w p dst t ≡ dst t)
      × ((t : ℕ)
          → t < len
          → fast_update_error c w src p dst t
            ≡ c.add
                (src t)
                (c.mul (if c.less (src t) (c.of_nat 0) then c.of_nat 1 else minus) p.scale))
unfolding decompress fast_update_error compress negative sign_of
onebit_round_trip c w len use_scale src dst words h few =
    let p = compress c w use_scale src len words in
    let f = λ (i : ℕ) (b : Bool). c.mul (sign_of c b) p.scale in
    let g = λ (i : ℕ) (b : Bool).
      c.add (src i) (c.mul (if b then c.of_nat 1 else c.sub (c.of_nat 0) (c.of_nat 1)) p.scale) in
    let e = rounds-exact (chunks w len) few in
    (
      λ t q.
          ap (λ (n : ℕ). unpack_words c f w p.words n dst t) e
          ∙ sent c f w len t use_scale src words dst h q,
      λ t q.
          ap (λ (n : ℕ). unpack_words c f w p.words n dst t) e
          ∙ unpack_words-other c f w p.words (chunks w len) dst t q,
      λ t q.
          ap (λ (n : ℕ). unpack_words c g w p.words n dst t) e
          ∙ sent c g w len t use_scale src words dst h q,
    )
