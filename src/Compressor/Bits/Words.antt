-- ===== src/Compressor/Bits/Words.antt =====
-- The bits of a word of deep_inc/common/compressor/utils.h, the highest first, and those of a run of
-- words.
use mathlib.Core.List.{append_assoc, append-nil}
use native.Mathlib.Nat.{
  pow-succ', div-add-mod, mod-lt, one-le-pow, mul-add-mod_self_left, mod-eq_of_lt,
  div-div-eq-div-mul, div-one,
}
use deep_inc.Base.{
  ℕ, zero, suc, ◌+◌, ◌*◌, ◌/◌, ◌%◌, ◌^◌, ◌≤◌, ◌<◌, ◌≡◌, refl, sym, ap, ◌∙◌, arith, Bool, true,
  false, List, [], ◌∷◌, ◌++◌, ◌==◌, length, length-append, replicate, update, update_self,
  update_ne,
}
use deep_inc.Compressor.Bits.{bit}

-- The lowest `k` bits of `v`.
unfoldable pub word_bits : ℕ → ℕ → List Bool
word_bits zero v = []
word_bits (suc k) v = word_bits k (v / 2) ++ (v % 2 == 1) ∷ []

pub length-word_bits : (k v : ℕ) → length (word_bits k v) ≡ k
unfolding word_bits
length-word_bits zero v = refl
length-word_bits (suc k) v =
    omega
      (arith, length-append (word_bits k (v / 2)) ((v % 2 == 1) ∷ []), length-word_bits k (v / 2))

pub pow_pos : (k : ℕ) → 0 < 2 ^ k
pow_pos k = one-le-pow k 2 (omega arith)

-- Halving a remainder by an even number.
pub half-mod : (v m : ℕ) → 0 < m → (v % (2 * m) / 2 ≡ v / 2 % m) × (v % (2 * m) % 2 ≡ v % 2)
half-mod v m h = omega (arith, low)
  where
    rest : ℕ
    rest = 2 * (v / 2 % m) + v % 2

    split : 2 * m * (v / 2 / m) + rest ≡ v
    split = omega (arith, ap (λ (t : ℕ). 2 * t) (div-add-mod (v / 2) m))

    low : v % (2 * m) ≡ rest
    low =
        ap (λ (t : ℕ). t % (2 * m)) (sym split)
        ∙ mul-add-mod_self_left (2 * m) (v / 2 / m) rest
        ∙ mod-eq_of_lt (omega (arith, mod-lt (v / 2) h))

pub half-div : (v m : ℕ) → v / (2 * m) ≡ v / 2 / m
half-div v m = sym (div-div-eq-div-mul v 2 m)

-- Only the lowest bits count.
pub word_bits-mod : (k w v : ℕ) → k ≤ w → word_bits k (v % 2 ^ w) ≡ word_bits k v
unfolding word_bits
word_bits-mod zero w v h = refl
word_bits-mod (suc k) zero v h = absurd (omega arith)
word_bits-mod (suc k) (suc w) v h =
    let (a, b) = half-mod v (2 ^ w) (pow_pos w) in
    rw (pow-succ' 2 w, a, b, word_bits-mod k w (v / 2) (omega arith)) refl

-- The highest of the lowest `k + 1` bits comes first.
pub word_bits_head : (k v : ℕ) → word_bits (suc k) v ≡ (v / 2 ^ k % 2 == 1) ∷ word_bits k v
unfolding word_bits
word_bits_head zero v = rw div-one refl
word_bits_head (suc k) v = rw (word_bits_head k (v / 2), pow-succ' 2 k, half-div v (2 ^ k)) refl

-- A new lowest bit comes last.
pub word_bits_shift :
    (k v : ℕ) (x : Bool) → word_bits (suc k) (v * 2 + bit x) ≡ word_bits k v ++ x ∷ []
unfolding word_bits
word_bits_shift k v true =
    let e : (v * 2 + 1) / 2 ≡ v = omega arith in
    let f : (v * 2 + 1) % 2 ≡ 1 = omega arith in rw (e, f) refl
word_bits_shift k v false =
    let e : (v * 2 + 0) / 2 ≡ v = omega arith in
    let f : (v * 2 + 0) % 2 ≡ 0 = omega arith in rw (e, f) refl

abbrev pub zeros : ℕ → List Bool
zeros n = replicate n false

zeros_snoc : (n : ℕ) → zeros n ++ false ∷ [] ≡ zeros (suc n)
zeros_snoc zero = refl
zeros_snoc (suc n) = ap (λ l. false ∷ l) (zeros_snoc n)

-- A shift by `p` places appends `p` zeros.
pub word_bits-shl : (p k v : ℕ) → word_bits (k + p) (v * 2 ^ p) ≡ word_bits k v ++ zeros p
word_bits-shl zero k v =
    let e : k + 0 ≡ k = omega arith in
    let f : v * 2 ^ 0 ≡ v = omega arith in rw (e, f, append-nil) refl
word_bits-shl (suc p) k v =
    let e : k + suc p ≡ suc (k + p) = omega arith in
    let f : v * 2 ^ suc p ≡ v * 2 ^ p * 2 + bit false =
      omega (arith, ap (λ (t : ℕ). v * t) (pow-succ' 2 p)) in
    rw
      (
        e,
        f,
        word_bits_shift (k + p) (v * 2 ^ p) false,
        word_bits-shl p k v,
        append_assoc,
        zeros_snoc p,
      )
      refl

-- The bits of the `n` words of `mem` from the word `i` on.
unfoldable pub cells_from : ℕ → (ℕ → ℕ) → ℕ → ℕ → List Bool
unfolding word_bits
cells_from w mem i zero = []
cells_from w mem i (suc n) = word_bits w (mem i) ++ cells_from w mem (i + 1) n

-- A word that is written behind them does not change them.
pub cells_from-update :
    (w : ℕ) (mem : ℕ → ℕ) (v n i j : ℕ)
    → i + n ≤ j
    → cells_from w (update mem j v) i n ≡ cells_from w mem i n
unfolding cells_from
cells_from-update w mem v zero i j h = refl
cells_from-update w mem v (suc n) i j h =
    rw (update_ne mem j v i (λ e. omega arith), cells_from-update w mem v n (i + 1) j (omega arith))
      refl

cells_from_snoc :
    (w : ℕ) (mem : ℕ → ℕ) (n i : ℕ)
    → cells_from w mem i (suc n) ≡ cells_from w mem i n ++ word_bits w (mem (i + n))
unfolding cells_from
cells_from_snoc w mem zero i = let e : i + 0 ≡ i = omega arith in rw (append-nil, e) refl
cells_from_snoc w mem (suc n) i =
    let e : i + suc n ≡ (i + 1) + n = omega arith in
    rw (e, append_assoc, ← cells_from_snoc w mem n (i + 1)) refl

-- A word that is written just behind them is appended.
pub cells_from_write :
    (w : ℕ) (mem : ℕ → ℕ) (v n : ℕ)
    → cells_from w (update mem n v) 0 (suc n) ≡ cells_from w mem 0 n ++ word_bits w v
cells_from_write w mem v n =
    let e : 0 + n ≡ n = omega arith in
    rw
      (
        cells_from_snoc w (update mem n v) n 0,
        cells_from-update w mem v n 0 n (omega arith),
        e,
        update_self mem n v,
      )
      refl

pub length-cells_from : (w : ℕ) (mem : ℕ → ℕ) (i n : ℕ) → length (cells_from w mem i n) ≡ n * w
unfolding cells_from
length-cells_from w mem i zero = omega arith
length-cells_from w mem i (suc n) = omega (
  arith,
  length-append (word_bits w (mem i)) (cells_from w mem (i + 1) n),
  length-word_bits w (mem i),
  length-cells_from w mem (i + 1) n,
)
