-- ===== src/Worker/Partition/Tiles.antt =====
-- The parts of `PartitionTensor` and the bytes of the tensor.
use deep_inc.Base.{
  ℕ, zero, suc, ◌+◌, ◌-◌, ◌*◌, ◌/◌, ◌%◌, ◌^◌, ◌≤◌, ◌<◌, ◌≡◌, ◌≢◌, refl, inl, inr, true, some,
  dec_lt, ltb-false, get_elem?, ◌⊎◌, Option, none, List, [], ◌∷◌, length, lt→ltb, ok, arith,
}
use native.Mathlib.Nat.{div-add-mod, mod-lt}
use deep_inc.Worker.State.{Task}
use deep_inc.Worker.Partition.{
  is_set, part_len, compressor_at, partition, partition_from, entry_size, partition_tensor,
}

-- The partitions lie end to end from one offset up to another; none is empty or above the bound.
abbrev pub Tiles : ℕ → ℕ → ℕ → List Task → Type 0
Tiles bound from to [] = from ≡ to
Tiles bound from to (t ∷ ts) =
    (t.offset ≡ from) × (0 < t.len) × (t.len ≤ bound) × Tiles bound (from + t.len) to ts

-- `n` partitions are what a stretch of bytes takes: the last is not empty, and there is room.
abbrev pub Takes : ℕ → ℕ → ℕ → Type 0
Takes bound bytes n = (bytes ≤ n * bound) × (n * bound < bytes + bound)

-- Every partition that is still to be made finds its compressor, if the tensor has any.
abbrev pub HasCompressors : List ℕ → ℕ → Type 0
HasCompressors cs n = (cs ≡ []) ⊎ (n ≤ length cs)

get_elem?-some {ℓ} :
    {A : Type ℓ} (xs : List A) (i : ℕ) → i < length xs → (x : A) × (get_elem? xs i ≡ some x)
get_elem?-some [] i h = elim h [ ]
get_elem?-some (x ∷ xs) zero h = (x, refl)
get_elem?-some (x ∷ xs) (suc i) h = get_elem?-some xs i (omega arith)

compressor_at-ok :
    (cs : List ℕ) (i : ℕ)
    → (cs ≡ []) ⊎ (i < length cs)
    → (c : Option ℕ) × (compressor_at cs i ≡ ok c)
unfolding compressor_at
compressor_at-ok [] i h = (none, refl)
compressor_at-ok (c ∷ cs) i (inl e) = cc
compressor_at-ok (c ∷ cs) i (inr h) =
    let found = get_elem?-some (c ∷ cs) i h in (some found.0, rw found.1)

pub part_len_bounds :
    (size bound acc : ℕ)
    → 0 < bound
    → bound < 2 ^ 32
    → acc < size
    → let n = part_len size bound acc in
      (0 < n) × (n ≤ bound) × (acc + n ≤ size) × (n % 2 ^ 32 ≡ n) × ((n ≡ bound) ⊎ (acc + n ≡ size))
unfolding part_len
part_len_bounds size bound acc pos small h = ground arith

pub mul_mono : (a b c : ℕ) → a ≤ b → a * c ≤ b * c
mul_mono a b c h = grind arith

-- A count is below the one that covers more.
pub lt_of_mul : (a b c : ℕ) → a * c < b * c → a < b
lt_of_mul a b c h = elim (dec_lt a b) [
  | yes lt ↦ lt
  | no ge ↦ absurd (omega (arith, mul_mono b a c (omega arith)))
]

Takes-unique : (bound bytes n m : ℕ) → Takes bound bytes n → Takes bound bytes m → n ≡ m
Takes-unique bound bytes n m (n_covers, n_tight) (m_covers, m_tight) =
    let up : n < m + 1 = lt_of_mul n (m + 1) bound (omega arith) in
    let down : m < n + 1 = lt_of_mul m (n + 1) bound (omega arith) in omega arith

-- Where a loop stands that has made `i` of `total` parts up to `acc`.
abbrev pub AtPart : ℕ → ℕ → ℕ → ℕ → ℕ → Type 0
AtPart size bound total acc i = (acc ≡ i * bound) ⊎ ((acc ≡ size) × (i ≡ total))

pub AtPart-next :
    (size bound total acc n i : ℕ)
    → Takes bound size total
    → 0 < n
    → n ≤ bound
    → acc + n ≤ size
    → (n ≡ bound) ⊎ (acc + n ≡ size)
    → AtPart size bound total acc i
    → AtPart size bound total (acc + n) (i + 1)
AtPart-next size bound total acc n i takes pos le fits (inl full) (inl at_i) = inl (omega arith)
AtPart-next size bound total acc n i takes pos le fits (inr over) (inl at_i) =
    inr (over, Takes-unique bound size (i + 1) total (omega arith, omega arith) takes)
AtPart-next size bound total acc n i takes pos le fits how (inr done) = absurd (omega arith)

pub AtPart-index :
    (size bound total acc i : ℕ)
    → Takes bound size total
    → acc < size
    → AtPart size bound total acc i
    → i < total
AtPart-index size bound total acc i takes more (inl at_i) = lt_of_mul i total bound (omega arith)
AtPart-index size bound total acc i takes more (inr done) = absurd (omega arith)

pub AtPart-end :
    (size bound total acc i : ℕ)
    → 0 < bound
    → Takes bound size total
    → acc ≡ size
    → AtPart size bound total acc i
    → i ≡ total
AtPart-end size bound total acc i pos takes done (inl at_i) =
    Takes-unique bound size i total (omega arith, omega arith) takes
AtPart-end size bound total acc i pos takes done (inr (_, e)) = e

module _ (entry : Task) (cs : List ℕ) (size bound : ℕ) where
  partition_from-step :
      (fuel acc i : ℕ) (c : Option ℕ) (rest : List Task)
      → acc < size
      → part_len size bound acc % 2 ^ 32 ≡ part_len size bound acc
      → compressor_at cs i ≡ ok c
      → partition_from fuel entry cs size bound (acc + part_len size bound acc) (i + 1) ≡ ok rest
      → partition_from (suc fuel) entry cs size bound acc i
        ≡ ok (partition entry size bound acc i c ∷ rest)
  unfolding partition_from
  partition_from-step fuel acc i c rest more exact found tail =
      rw (lt→ltb acc size more, found, exact, tail)

  partition-Tiles :
      (acc i : ℕ) (c : Option ℕ) (rest : List Task)
      → 0 < bound
      → bound < 2 ^ 32
      → size ≤ 2 ^ 32
      → acc < size
      → Tiles bound (acc + part_len size bound acc) size rest
      → Tiles bound acc size (partition entry size bound acc i c ∷ rest)
  unfolding partition
  partition-Tiles acc i c rest pos small fits more tiles =
      let b = part_len_bounds size bound acc pos small more in
      (omega arith, rw b.3 b.0, rw b.3 b.1, rw b.3 tiles)

  -- From `acc` on, where `i` parts have been made.
  partition_from-Tiles :
      (total : ℕ)
      → 0 < bound
      → bound < 2 ^ 32
      → size ≤ 2 ^ 32
      → Takes bound size total
      → HasCompressors cs total
      → (fuel acc i : ℕ) → size - acc < fuel
      → acc ≤ size
      → AtPart size bound total acc i
      → (ps : List Task) × (partition_from fuel entry cs size bound acc i ≡ ok ps)
        × Tiles bound acc size ps
        × (i + length ps ≡ total)
  unfolding partition_from
  partition_from-Tiles total pos small fits takes has zero acc i f le at = absurd (omega arith)
  partition_from-Tiles total pos small fits takes has (suc fuel) acc i f le at =
      elim (dec_lt acc size) [
        | no done ↦
            let e = AtPart-end size bound total acc i pos takes (omega arith) at in
            ([], rw (ltb-false acc size done), omega arith, omega arith)
        | yes more ↦
            let b = part_len_bounds size bound acc pos small more in
            let inside = AtPart-index size bound total acc i takes more at in
            let (c, found) = compressor_at-ok cs i (ground arith) in
            let next = AtPart-next size bound total acc _ i takes b.0 b.1 b.2 b.4 at in
            let (rest, tail, tiles, count) =
              partition_from-Tiles total pos small fits takes has fuel
                (acc + part_len size bound acc) (i + 1) (omega arith) b.2 next in
            (
              partition entry size bound acc i c ∷ rest,
              partition_from-step fuel acc i c rest more b.3 found tail,
              partition-Tiles acc i c rest pos small fits more tiles,
              omega arith,
            )
      ]

-- `(size + bound - 1) / bound`, the number that `InitTensor` checks for.
abbrev pub div_up : ℕ → ℕ → ℕ
div_up size bound = (size + bound - 1) / bound

pub div_up-Takes : (size bound : ℕ) → 0 < bound → Takes bound size (div_up size bound)
div_up-Takes size bound pos =
    omega (arith, div-add-mod (size + bound - 1) bound, mod-lt (size + bound - 1) pos)

-- For a tensor of at most 4 GiB, a positive bound below 2 ^ 32, an entry with a counter, and no
-- compressor or at least one for each part, `PartitionTensor` returns one task for each part: the
-- tasks cover the tensor from its first byte to its last without a gap or an overlap, none is empty
-- or longer than the bound, and their number is the size divided by the bound, rounded up.
pub partition_tensor-Tiles :
    (bound size : ℕ) (cs : List ℕ) (entry : Task)
    → 0 < bound
    → bound < 2 ^ 32
    → size ≤ 2 ^ 32
    → is_set entry.counter_ptr ≡ true
    → entry_size entry ≡ ok size
    → HasCompressors cs (div_up size bound)
    → (ps : List Task) × (partition_tensor bound cs entry ≡ ok ps)
      × Tiles bound 0 size ps
      × (length ps ≡ div_up size bound)
unfolding partition_tensor
partition_tensor-Tiles bound size cs entry pos small fits counted sized has =
    let (ps, e, tiles, count) =
      partition_from-Tiles entry cs size bound (div_up size bound) pos small fits
        (div_up-Takes size bound pos) has (suc size) 0 0 (omega arith) (omega arith)
        (inl (omega arith)) in
    (ps, rw (counted, sized) e, tiles, omega arith)

-- The offset of a part that begins at 2 ^ 32 bytes or later is not the place where the part begins.
pub partition_offset_wraps :
    (entry : Task) (size bound acc i : ℕ) (c : Option ℕ)
    → 2 ^ 32 ≤ acc
    → (partition entry size bound acc i c).offset ≢ acc
unfolding partition
partition_offset_wraps entry size bound acc i c h e = omega arith
