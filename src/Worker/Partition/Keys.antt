-- ===== src/Worker/Partition/Keys.antt =====
-- The keys that `InitTensor` of deep_inc/common/operations.cc gives to the parts of a tensor.
use deep_inc.Base.{
  ℕ, zero, suc, ◌+◌, ◌-◌, ◌*◌, ◌/◌, ◌%◌, ◌^◌, ◌≤◌, ◌<◌, ◌≡◌, ◌≢◌, refl, inl, inr, List, [], ◌∷◌,
  length, All, dec_lt, lt→ltb, ltb-false, ok, arith, contains, true, false, Bool-cases, sym, ◌∙◌,
}
use deep_inc.Worker.Partition.{part_len, keys_from, start_key, init_keys}
use deep_inc.Worker.Partition.Tiles.{
  Takes, mul_mono, lt_of_mul, AtPart, AtPart-next, AtPart-end, AtPart-index, part_len_bounds,
  div_up, div_up-Takes,
}

abbrev pub Consecutive : ℕ → List ℕ → Type 0
Consecutive k [] = Unit
Consecutive k (x ∷ xs) = (x ≡ k) × Consecutive (k + 1) xs

-- A part takes at least one byte.
Takes-le : (size bound n : ℕ) → 0 < bound → Takes bound size n → n ≤ size
Takes-le size bound n pos (covers, tight) =
    let wide = mul_mono 1 bound size pos in
    omega (arith, lt_of_mul n (size + 1) bound (omega arith))

keys_from-step :
    (size bound fuel acc key : ℕ) (rest : List ℕ)
    → acc < size
    → key + 1 < 2 ^ 64
    → keys_from fuel size bound (acc + part_len size bound acc) (key + 1) ≡ ok rest
    → keys_from (suc fuel) size bound acc key ≡ ok (key ∷ rest)
unfolding keys_from
keys_from-step size bound fuel acc key rest more small tail =
    let exact : (key + 1) % 2 ^ 64 ≡ key + 1 = omega arith in rw (lt→ltb acc size more, exact, tail)

-- From `acc` on, where `i` keys have been made; no key reaches the end of `uint64_t`.
keys_from-Consecutive :
    (size bound total : ℕ)
    → 0 < bound
    → bound < 2 ^ 32
    → Takes bound size total
    → (fuel acc i key : ℕ) → size - acc < fuel
    → acc ≤ size
    → AtPart size bound total acc i
    → key + (total - i) < 2 ^ 64
    → (ks : List ℕ) × (keys_from fuel size bound acc key ≡ ok ks)
      × Consecutive key ks
      × (i + length ks ≡ total)
unfolding keys_from
keys_from-Consecutive size bound total pos small takes zero acc i key f le at fits =
    absurd (omega arith)
keys_from-Consecutive size bound total pos small takes (suc fuel) acc i key f le at fits =
    elim (dec_lt acc size) [
      | no done ↦
          let e = AtPart-end size bound total acc i pos takes (omega arith) at in
          ([], rw (ltb-false acc size done), tt, omega arith)
      | yes more ↦
          let b = part_len_bounds size bound acc pos small more in
          let inside = AtPart-index size bound total acc i takes more at in
          let next = AtPart-next size bound total acc _ i takes b.0 b.1 b.2 b.4 at in
          let (rest, tail, run, count) =
            keys_from-Consecutive size bound total pos small takes fuel
              (acc + part_len size bound acc) (i + 1) (key + 1) (omega arith) b.2 next
              (omega arith) in
          (
            key ∷ rest,
            keys_from-step size bound fuel acc key rest more (omega arith) tail,
            (refl, run),
            omega arith,
          )
    ]

init_keys-eq :
    (bound size declared_key : ℕ) (ks : List ℕ)
    → declared_key < 2 ^ 32
    → keys_from (suc size) size bound 0 (declared_key * 65536) ≡ ok ks
    → init_keys bound size declared_key ≡ ok ks
unfolding init_keys start_key
init_keys-eq bound size declared_key ks small e =
    let exact : declared_key * 2 ^ 16 % 2 ^ 64 ≡ declared_key * 65536 = omega arith in rw exact e

-- For a positive bound below 2 ^ 32, a declared key below 2 ^ 32 and a size below 2 ^ 63,
-- `InitTensor` makes as many keys as the size divided by the bound, rounded up: consecutive numbers
-- from the declared key times 65536 on.
pub init_keys-Consecutive :
    (bound size declared_key : ℕ)
    → 0 < bound
    → bound < 2 ^ 32
    → declared_key < 2 ^ 32
    → size < 2 ^ 63
    → (ks : List ℕ) × (init_keys bound size declared_key ≡ ok ks)
      × Consecutive (declared_key * 65536) ks
      × (length ks ≡ div_up size bound)
init_keys-Consecutive bound size declared_key pos small declared fits =
    let takes = div_up-Takes size bound pos in
    let few = Takes-le size bound (div_up size bound) pos takes in
    let (ks, e, run, count) =
      keys_from-Consecutive size bound (div_up size bound) pos small takes (suc size) 0 0
        (declared_key * 65536) (omega arith) (omega arith) (inl (omega arith)) (omega arith) in
    (ks, init_keys-eq bound size declared_key ks declared e, run, omega arith)

-- Every key of a tensor of at most 65536 parts has the declared key as its part above the lowest 16
-- bits, so that two tensors never share a key.
All-owner :
    (declared_key k : ℕ) (ks : List ℕ)
    → Consecutive k ks
    → declared_key * 65536 ≤ k
    → k + length ks ≤ declared_key * 65536 + 65536
    → All (λ key. key / 65536 ≡ declared_key) ks
All-owner declared_key k [] run lo hi = tt
All-owner declared_key k (x ∷ xs) run lo hi =
    (omega arith, All-owner declared_key (k + 1) xs run.1 (omega arith) (omega arith))

init_keys-run :
    (bound size declared_key : ℕ) (ks : List ℕ)
    → 0 < bound
    → bound < 2 ^ 32
    → size < 2 ^ 63
    → declared_key < 2 ^ 32
    → init_keys bound size declared_key ≡ ok ks
    → Consecutive (declared_key * 65536) ks × (length ks ≡ div_up size bound)
init_keys-run bound size declared_key ks pos small fits declared e =
    let (ks₀, e₀, run, count) =
      init_keys-Consecutive bound size declared_key pos small declared fits in
    let same : ks ≡ ks₀ = cc in rw same (run, count)

contains-owner :
    (declared_key key : ℕ) (ks : List ℕ)
    → All (λ key. key / 65536 ≡ declared_key) ks
    → contains ks key ≡ true
    → key / 65536 ≡ declared_key
unfolding contains
contains-owner declared_key key [] all found = cc
contains-owner declared_key key (x ∷ xs) all found =
    ground (arith, contains-owner declared_key key xs all.1)

-- For a positive bound below 2 ^ 32, two tensors of sizes below 2 ^ 63 and at most 65536 parts,
-- with different declared keys below 2 ^ 32, have no key in common.
pub keys_apart :
    (bound size size' declared_key declared_key' key : ℕ) (ks ks' : List ℕ)
    → 0 < bound
    → bound < 2 ^ 32
    → size < 2 ^ 63
    → size' < 2 ^ 63
    → div_up size bound ≤ 65536
    → div_up size' bound ≤ 65536
    → declared_key < 2 ^ 32
    → declared_key' < 2 ^ 32
    → declared_key ≢ declared_key'
    → init_keys bound size declared_key ≡ ok ks
    → init_keys bound size' declared_key' ≡ ok ks'
    → contains ks key ≡ true
    → contains ks' key ≡ false
keys_apart bound size size' d d' key ks ks' pos small fits fits' few few' lt lt' ne e e' found =
    let (run, count) = init_keys-run bound size d ks pos small fits lt e in
    let (run', count') = init_keys-run bound size' d' ks' pos small fits' lt' e' in
    let all = All-owner d (d * 65536) ks run (omega arith) (omega arith) in
    let all' = All-owner d' (d' * 65536) ks' run' (omega arith) (omega arith) in
    elim (Bool-cases (contains ks' key)) [
      | inl both ↦
          absurd
            (ne (sym (contains-owner d key ks all found) ∙ contains-owner d' key ks' all' both))
      | inr apart ↦ apart
    ]

contains-Consecutive :
    (k n : ℕ) (ks : List ℕ) → Consecutive k ks → n < length ks → contains ks (k + n) ≡ true
unfolding contains
contains-Consecutive k n [] run h = absurd (omega arith)
contains-Consecutive k zero (x ∷ xs) run h = ground arith
contains-Consecutive k (suc n) (x ∷ xs) run h =
    let ih = contains-Consecutive (k + 1) n xs run.1 (omega arith) in
    let e : k + 1 + n ≡ k + suc n = omega arith in let ih' = rw e at ih in ground (arith, ih')

-- For a positive bound below 2 ^ 32, a tensor of a size below 2 ^ 63 and more than 65536 parts gets
-- keys too, and one of them is the first key of the tensor that is declared next, when that one's
-- number is below 2 ^ 32.
pub keys_collide :
    (bound size declared_key : ℕ)
    → 0 < bound
    → bound < 2 ^ 32
    → size < 2 ^ 63
    → 65536 < div_up size bound
    → declared_key + 1 < 2 ^ 32
    → (ks : List ℕ) × (init_keys bound size declared_key ≡ ok ks)
      × (contains ks (start_key (declared_key + 1)) ≡ true)
unfolding start_key
keys_collide bound size d pos small fits many lt =
    let (ks, e, run, count) = init_keys-Consecutive bound size d pos small (omega arith) fits in
    let next : (d + 1) * 2 ^ 16 % 2 ^ 64 ≡ d * 65536 + 65536 = omega arith in
    (ks, e, rw next (contains-Consecutive (d * 65536) 65536 ks run (omega arith)))
