-- ===== src/Compressor/Sparse/Kept.antt =====
-- What the pairs of deep_inc/common/compressor/impl/topk.cc and randomk.cc keep of a tensor.
use native.Mathlib.Nat.{mod-eq_of_lt}
use deep_inc.Base.{
  ℕ, zero, suc, ◌/◌, ◌%◌, ◌^◌, ◌≤◌, ◌<◌, ◌≡◌, refl, sym, ap, ◌∙◌, arith, Bool, true, false,
  if◌then◌else◌, ok, List, [], ◌∷◌, length, get_elem?, set, replicate, take, length-replicate,
  length-set, All-map, lt→ltb, le→leb, ℕ_discrete, eq→==, ne→==, get_elem?-set_self,
  get_elem?-set_ne, get_elem?-lt, ◌==◌, ◌||◌, All, Option, some,
}
use deep_inc.Compressor.Scalar.{Scalar}
use deep_inc.Compressor.Random.{Rng, randint, randint_bounds}
use deep_inc.Compressor.Sparse.{
  Pair, pick, randomk_compress, scatter, decompress, fast_update_error,
}

module _ {A : Type 0} where
  get_elem?-in : (xs : List A) (i : ℕ) → i < length xs → (x : A) × (get_elem? xs i ≡ some x)
  get_elem?-in [] i h = absurd (omega arith)
  get_elem?-in (x ∷ xs) zero h = (x, refl)
  get_elem?-in (x ∷ xs) (suc i) h = get_elem?-in xs i (omega arith)

  take-length : (xs : List A) → take (length xs) xs ≡ xs
  take-length [] = refl
  take-length (x ∷ xs) = ap (λ (l : List A). x ∷ l) (take-length xs)

  get_elem?-replicate : (n i : ℕ) (x : A) → i < n → get_elem? (replicate n x) i ≡ some x
  get_elem?-replicate zero i x h = absurd (omega arith)
  get_elem?-replicate (suc n) zero x h = refl
  get_elem?-replicate (suc n) (suc i) x h = get_elem?-replicate n i x (omega arith)

  -- A cell after a write that writes what is wanted there.
  cell-set :
      (xs : List A) (j i : ℕ) (v : A) (b : Bool) (want : Option A)
      → j < length xs
      → (j ≡ i → want ≡ some v)
      → (if b then want else get_elem? (set xs j v) i)
        ≡ (if (j == i) || b then want else get_elem? xs i)
  cell-set xs j i v b want h w = elim (ℕ_discrete j i) [
    | yes e ↦
        let here : get_elem? (set xs j v) i ≡ want =
          rw (← e) (get_elem?-set_self xs j v h) ∙ sym (w e) in
        rw (eq→== _ _ e, here) (same b)
    | no ne ↦ rw (ne→== _ _ ne, get_elem?-set_ne xs v ne) refl
  ]
    where
      same : (x : Bool) → (if x then want else want) ≡ want
      same true = refl
      same false = refl

module _ (c : Scalar) where
  -- Whether some pair has the index `i`.
  unfoldable pub chosen : List (Pair c) → ℕ → Bool
  chosen [] i = false
  chosen (p ∷ ps) i = (p.first == i) || chosen ps i

  module _ (value : Pair c → c.Num) (want : ℕ → Option c.Num) where
    -- Each chosen scalar is as wanted, the others stay.
    scatter-get :
        (ps : List (Pair c)) (dst : List c.Num)
        → All (λ p. p.first < length dst) ps
        → All (λ p. want p.first ≡ some (value p)) ps
        → (d : List c.Num) × (scatter c value ps dst ≡ ok d)
          × (length d ≡ length dst)
          × ((i : ℕ) → get_elem? d i ≡ (if chosen ps i then want i else get_elem? dst i))
    unfolding scatter chosen
    scatter-get [] dst r w = (dst, refl, refl, λ i. refl)
    scatter-get (p ∷ ps) dst (here, r) (e, w) =
        let dst' = set dst p.first (value p) in
        let size = length-set dst p.first (value p) in
        let (d, run, same, at) =
          scatter-get ps dst' (All-map (λ q. q.first < length dst) (λ q b. omega arith) ps r) w in
        (
          d,
          rw (lt→ltb _ _ here) run,
          same ∙ size,
          λ i.
              at i
              ∙ cell-set dst p.first i (value p) (chosen ps i) (want i) here
                  (λ q. ap want (sym q) ∙ e),
        )

  module _ (src : List c.Num) (short : length src < 2 ^ 64) (w : ℕ)
      (indexed : length src ≤ 2 ^ w) where
    abbrev FromSource : Pair c → Type 0
    FromSource p = get_elem? src p.first ≡ some p.second

    pick-FromSource :
        (n : ℕ) (r : Rng)
        → n ≤ length src
        → (ps : List (Pair c)) × (u : Rng) × (pick c w n src r ≡ ok (ps, u))
          × (length ps ≡ n)
          × All FromSource ps
    unfolding pick
    pick-FromSource zero r h = ([], r, refl, refl, tt)
    pick-FromSource (suc n) r h =
        let index = (randint 0 (length src) r).0 in
        let t = (randint 0 (length src) r).1 in
        let bounds = randint_bounds 0 (length src) r (omega arith) short in
        let (x, e) = get_elem?-in src index bounds.1 in
        let (ps, u, run, size, all) = pick-FromSource n t (omega arith) in
        let uncut : index % 2 ^ w ≡ index = mod-eq_of_lt (omega (arith, bounds.1)) in
        (
          record { first = index; second = x } ∷ ps,
          u,
          rw (e, run, uncut) refl,
          omega arith,
          (e, all),
        )

    -- For a tensor of fewer than 2 ^ 64 scalars whose length the indices hold, with at most half of
    -- the scalars as pairs, randomk's `Compress` reads within the tensor and gives that many pairs;
    -- `Decompress` gives the tensor's scalar at each index that a pair has and 0 elsewhere, and
    -- `FastUpdateError` gives an error of the tensor's length with 0 at these indices and the
    -- tensor's scalar elsewhere.
    pub randomk_split :
        (k : ℕ) (r : Rng)
        → k ≤ length src / 2
        → (ps : List (Pair c)) × (u : Rng) × (d : List c.Num) × (e : List c.Num) × (randomk_compress
              c w k src r
            ≡ ok (ps, u))
          × (length ps ≡ k)
          × (decompress c ps (length src) ≡ ok d)
          × (fast_update_error c k src ps ≡ ok e)
          × (length e ≡ length src)
          × ((i : ℕ)
              → i < length src
              → (get_elem? d i ≡ (if chosen ps i then get_elem? src i else some (c.of_nat 0)))
                × (get_elem? e i ≡ (if chosen ps i then some (c.of_nat 0) else get_elem? src i)))
    unfolding randomk_compress decompress fast_update_error
    randomk_split k r h =
        let (ps, u, run, size, all) = pick-FromSource k r (omega arith) in
        let zeros = replicate (length src) (c.of_nat 0) in
        let inside : All (λ (p : Pair c). p.first < length src) ps =
          All-map FromSource (λ p e. get_elem?-lt src p.first e) ps all in
        let blank = length-replicate (length src) (c.of_nat 0) in
        let (d, dec, same_d, at_d) =
          scatter-get (λ p. p.second) (get_elem? src) ps zeros
            (All-map (λ (p : Pair c). p.first < length src) (λ p b. omega (arith, blank)) ps inside)
            all in
        let (e, err, same_e, at_e) =
          scatter-get (λ p. c.of_nat 0) (λ i. some (c.of_nat 0)) ps src inside
            (All-map FromSource (λ p q. refl) ps all) in
        let whole : take k ps ≡ ps = ap (λ (n : ℕ). take n ps) (sym size) ∙ take-length ps in
        (
          ps,
          u,
          d,
          e,
          rw (le→leb _ _ h) run,
          size,
          dec,
          rw (le→leb k (length ps) (omega arith), whole) err,
          same_e,
          λ i p. (rw (get_elem?-replicate (length src) i (c.of_nat 0) p) at (at_d i), at_e i),
        )
