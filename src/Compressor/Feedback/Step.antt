-- ===== src/Compressor/Feedback/Step.antt =====
-- A step of deep_inc/common/compressor/error_feedback.cc over a randomk compressor.
use deep_inc.Base.{
  ℕ, ◌/◌, ◌^◌, ◌≤◌, ◌<◌, ◌≡◌, ◌⊎◌, ◌∙◌, inl, inr, Bool, true, false, refl, arith, if◌then◌else◌,
  Option, some, List, [], ◌∷◌, length, get_elem?, ok,
}
use deep_inc.Compressor.Scalar.{Scalar}
use deep_inc.Compressor.Random.{Rng}
use deep_inc.Compressor.Sparse
use deep_inc.Compressor.Sparse.Kept.{chosen, randomk_split}
use deep_inc.Compressor.Feedback.{Codec, ErrorFeedback, compress, decompress, sum}

-- randomk of `k` pairs with indices of `w` bits, as the compressor of a tensor of `len` scalars.
abbrev pub randomk_codec : (c : Scalar) → ℕ → ℕ → ℕ → Codec c
randomk_codec c w k len = record {
  State = Rng;
  Buf = List (Sparse.Pair c);
  compress = λ r grad. Sparse.randomk_compress c w k grad r;
  decompress = λ r ps. Sparse.decompress c ps len;
  fast_update_error = λ r corrected ps. Sparse.fast_update_error c k corrected ps;
}

length-sum :
    (c : Scalar) (alpha : c.Num) (xs ys : List c.Num)
    → length ys ≡ length xs
    → length (sum c alpha xs ys) ≡ length xs
unfolding sum
length-sum c alpha [] ys h = refl
length-sum c alpha (x ∷ xs) [] h = absurd (omega arith)
length-sum c alpha (x ∷ xs) (y ∷ ys) h = omega (arith, length-sum c alpha xs ys (omega arith))

-- What is sent of a scalar, and what stays in the error, when the scalar is `x`.
abbrev pub Shares : (c : Scalar) → Option c.Num → Option c.Num → Option c.Num → Type 0
Shares c sent kept x =
    ((sent ≡ x) × (kept ≡ some (c.of_nat 0))) ⊎ ((sent ≡ some (c.of_nat 0)) × (kept ≡ x))

shared :
    (c : Scalar) (b : Bool) (sent kept x : Option c.Num)
    → sent ≡ (if b then x else some (c.of_nat 0))
    → kept ≡ (if b then some (c.of_nat 0) else x)
    → Shares c sent kept x
shared c true sent kept x p q = inl (p, q)
shared c false sent kept x p q = inr (p, q)

-- Error feedback over a randomk compressor whose indices hold the length of the tensor, with at
-- most half of the scalars as pairs: if the gradient and the error have the size of the tensor,
-- `Compress` succeeds, the gradient becomes the gradient plus the error scaled by the old learning
-- rate over the new one, rounded to a `float`, the new rate is kept, the new error has the size of
-- the tensor again, and each corrected scalar is either decompressed as it is with a 0 in the new
-- error, or decompressed as 0 and kept as it is in the new error.
pub feedback_step :
    (c : Scalar) (w k len : ℕ) (cur_lr : c.Num) (grad : List c.Num)
    (s : ErrorFeedback c (randomk_codec c w k len))
    → length grad ≡ len
    → length s.error ≡ len
    → len < 2 ^ 64
    → len ≤ 2 ^ w
    → k ≤ len / 2
    → (ps : List (Sparse.Pair c)) × (d : List c.Num) × (u : ErrorFeedback c
        (randomk_codec c w k len))
      × (compress c (randomk_codec c w k len) cur_lr grad s
          ≡ ok (ps, sum c (c.to_single (c.div s.pre_lr cur_lr)) grad s.error, u))
      × (decompress c (randomk_codec c w k len) ps u ≡ ok d)
      × (length u.error ≡ len)
      × (u.pre_lr ≡ cur_lr)
      × ((i : ℕ)
          → i < len
          → Shares c
              (get_elem? d i)
              (get_elem? u.error i)
              (get_elem? (sum c (c.to_single (c.div s.pre_lr cur_lr)) grad s.error) i))
unfolding compress decompress
feedback_step c w k len cur_lr grad s hg he small indexed hk =
    let x = sum c (c.to_single (c.div s.pre_lr cur_lr)) grad s.error in
    let size : length x ≡ len =
      length-sum c (c.to_single (c.div s.pre_lr cur_lr)) grad s.error (omega arith) ∙ hg in
    let (ps, r, d, e, made, count, dec, err, same, at) =
      randomk_split c x (omega arith) w (omega arith) k s.cptr (rw size hk) in
    (
      ps,
      d,
      record { error = e; pre_lr = cur_lr; cptr = r },
      rw (made, err) refl,
      rw size at dec,
      same ∙ size,
      refl,
      λ i p.
          let (a, b) = at i (omega arith) in
          shared c (chosen c ps i) (get_elem? d i) (get_elem? e i) (get_elem? x i) a b,
    )
