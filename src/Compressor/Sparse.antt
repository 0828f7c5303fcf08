-- ===== src/Compressor/Sparse.antt =====
-- TopkCompressor and RandomkCompressor of deep_inc/common/compressor/impl/topk.cc and randomk.cc: the
-- tensor is sent as pairs of an index and the scalar there.
pub mod Kept
use deep_inc.Base.{
  ℕ, zero, suc, ◌+◌, ◌-◌, ◌*◌, ◌/◌, ◌%◌, ◌^◌, Bool, true, false, ltb, leb, if◌then◌else◌, Result,
  ok, fail, check, out_of_range, null_pointer, or_fail, ◌>>=◌, ◌>>◌, List, [], ◌∷◌, ◌++◌, length,
  get_elem?, set, replicate, take,
}
use deep_inc.Compressor.Scalar.{Scalar}
use deep_inc.Compressor.Random.{Rng, randint}

module _ (c : Scalar) where
  open c use {Num, of_nat, abs, less}

  pub record Pair : Type 0 where
    pub first : ℕ
    pub second : Num

  -- `std::make_pair(i, x)`, whose index is cut to the `w` bits of an index_t.
  unfoldable pub make_pair : ℕ → ℕ → Num → Pair
  make_pair w i x = record { first = i % 2 ^ w; second = x }

  -- The order of the heap: `std::abs(lhs.second) > std::abs(rhs.second)`.
  unfoldable pub comp : Pair → Pair → Bool
  comp lhs rhs = less (abs rhs.second) (abs lhs.second)

  -- std::push_heap and std::pop_heap by an order.
  pub record Heap : Type 0 where
    pub push_heap : (Pair → Pair → Bool) → List Pair → List Pair
    pub pop_heap : (Pair → Pair → Bool) → List Pair → List Pair

  module _ (h : Heap) where
    open h use {push_heap, pop_heap}

    -- The first entry of the heap gives way to a larger scalar. `pop_heap` moves it to the end.
    unfoldable pub replace_top : Pair → List Pair → Result (List Pair)
    unfolding comp
    replace_top p [] = fail out_of_range
    replace_top p (top ∷ rest) =
        if less (abs top.second) (abs p.second)
        then (let popped = pop_heap comp (top ∷ rest) in
            ok (push_heap comp (take (length popped - 1) popped ++ p ∷ [])))
        else ok (top ∷ rest)

    -- The loop over the scalars from `i` on; `beg` is the heap.
    unfoldable pub select_from : ℕ → ℕ → List Num → ℕ → List Pair → Result (List Pair)
    unfolding comp replace_top make_pair
    select_from w k [] i beg = ok beg
    select_from w k (x ∷ xs) i beg =
        let p = make_pair w i x in
        (if ltb i k then ok (push_heap comp (beg ++ p ∷ [])) else replace_top p beg) >>= λ next.
        select_from w k xs (i + 1) next

    unfoldable pub topk_compress : ℕ → ℕ → List Num → Result (List Pair)
    unfolding select_from
    topk_compress w k src = check (leb k (length src / 2)) >> select_from w k src 0 []

  -- `k` pairs of a random index and the scalar there.
  unfoldable pub pick : ℕ → ℕ → List Num → Rng → Result (List Pair × Rng)
  unfolding make_pair
  pick w zero src r = ok ([], r)
  pick w (suc n) src r =
      let (index, t) = randint 0 (length src) r in
      or_fail (get_elem? src index) out_of_range >>= λ x.
      pick w n src t >>= λ (ps, u). ok (make_pair w index x ∷ ps, u)

  unfoldable pub randomk_compress : ℕ → ℕ → List Num → Rng → Result (List Pair × Rng)
  unfolding pick
  randomk_compress w k src r = check (leb k (length src / 2)) >> pick w k src r

  -- `dst[pair.first] = ...` for each pair.
  unfoldable pub scatter : (Pair → Num) → List Pair → List Num → Result (List Num)
  scatter value [] dst = ok dst
  scatter value (p ∷ ps) dst =
      if ltb p.first (length dst)
      then scatter value ps (set dst p.first (value p))
      else fail out_of_range

  unfoldable pub decompress : List Pair → ℕ → Result (List Num)
  unfolding scatter
  decompress ps len = scatter (λ p. p.second) ps (replicate len (of_nat 0))

  -- The first `k` pairs are taken out of the error.
  unfoldable pub fast_update_error : ℕ → List Num → List Pair → Result (List Num)
  unfolding scatter
  fast_update_error k corrected ps =
      if leb k (length ps) then scatter (λ p. of_nat 0) (take k ps) corrected else fail out_of_range

  -- topk has the same two methods.
  unfoldable pub topk_decompress : List Pair → ℕ → Result (List Num)
  unfolding scatter
  topk_decompress ps len = scatter (λ p. p.second) ps (replicate len (of_nat 0))

  unfoldable pub topk_fast_update_error : ℕ → List Num → List Pair → Result (List Num)
  unfolding scatter
  topk_fast_update_error k corrected ps =
      if leb k (length ps) then scatter (λ p. of_nat 0) (take k ps) corrected else fail out_of_range
