-- ===== src/Compressor/Elias/Code.antt =====
-- The code word that EliasDeltaEncode of deep_inc/common/compressor/utils.h appends.
use mathlib.Core.List.{append_assoc, append-nil}
use deep_inc.Base.{
  ℕ, zero, suc, ◌+◌, ◌-◌, ◌/◌, ◌%◌, ◌^◌, ◌≡◌, sym, Bool, false, List, [], ◌∷◌, ◌++◌, ◌==◌, ◌∙◌, ap,
}
use deep_inc.Compressor.Bits.{BitWriter, put_bit}
use deep_inc.Compressor.Bits.Words.{word_bits, word_bits_head, zeros}
use deep_inc.Compressor.Bits.Writer.{written, IsPartial, put_bit-written}
use deep_inc.Compressor.Elias.{put_zeros, put_low, elias_delta_encode, log2}

-- `r` became `s` by appending the bits `xs`.
pub record Appends (w : ℕ) (xs : List Bool) (r s : BitWriter) : Type 0 where
  pub appended : written w s ≡ written w r ++ xs
  pub fits : IsPartial w s

pub Appends-trans :
    (w : ℕ) (xs ys : List Bool) {r s t : BitWriter}
    → Appends w xs r s
    → Appends w ys s t
    → Appends w (xs ++ ys) r t
Appends-trans w xs ys {r} a b = record {
  appended =
      b.appended ∙ ap (λ (l : List Bool). l ++ ys) a.appended ∙ append_assoc (written w r) xs ys;
  fits = b.fits;
}

pub nothing : (w : ℕ) (r : BitWriter) → IsPartial w r → Appends w [] r r
nothing w r p = record { appended = sym (append-nil _); fits = p }

pub one_bit :
    (w : ℕ) (r : BitWriter) (x : Bool) → IsPartial w r → Appends w (x ∷ []) r (put_bit w r x)
one_bit w r x p = let (a, q) = put_bit-written w r x p in record { appended = a; fits = q }

put_zeros-Appends :
    (w n : ℕ) (r : BitWriter) → IsPartial w r → Appends w (zeros n) r (put_zeros w n r)
unfolding put_zeros
put_zeros-Appends w zero r p = nothing w r p
put_zeros-Appends w (suc n) r p =
    let first = one_bit w r false p in
    Appends-trans w (false ∷ []) (zeros n) first
      (put_zeros-Appends w n (put_bit w r false) first.fits)

put_low-Appends :
    (w k v : ℕ) (r : BitWriter) → IsPartial w r → Appends w (word_bits k v) r (put_low w k v r)
unfolding put_low
put_low-Appends w zero v r p = unfold word_bits in nothing w r p
put_low-Appends w (suc k) v r p =
    let x = v / 2 ^ k % 2 == 1 in
    let first = one_bit w r x p in
    rw (word_bits_head k v) (
      Appends-trans w (x ∷ []) (word_bits k v) first
        (put_low-Appends w k v (put_bit w r x) first.fits))

-- The length of the length in unary, the length, and the number without its highest bit.
unfoldable pub code : ℕ → List Bool
code x =
    let len = 1 + log2 x in
    let n = log2 len in zeros n ++ (word_bits (n + 1) len ++ word_bits (len - 1) x)

pub elias_delta_encode-Appends :
    (w x : ℕ) (r : BitWriter) → IsPartial w r → Appends w (code x) r (elias_delta_encode w r x)
unfolding elias_delta_encode code
elias_delta_encode-Appends w x r p =
    let len = 1 + log2 x in
    let n = log2 len in
    let a = put_zeros-Appends w n r p in
    let b = put_low-Appends w (n + 1) len (put_zeros w n r) a.fits in
    let c = put_low-Appends w (len - 1) x (put_low w (n + 1) len (put_zeros w n r)) b.fits in
    Appends-trans w (zeros n) (word_bits (n + 1) len ++ word_bits (len - 1) x) a
      (Appends-trans w (word_bits (n + 1) len) (word_bits (len - 1) x) b c)
