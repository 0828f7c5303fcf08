-- ===== src/Worker/Partition.antt =====
-- `PartitionTensor` and the key loop of `InitTensor` of deep_inc/common/operations.cc: a tensor is
-- cut into partitions of at most the partition bound, and every partition has a key of its own.
-- The `while` loops run on fuel above the size; with a positive bound that is enough.
pub mod Tiles
pub mod Keys
use deep_inc.Base.{
  ℕ, zero, suc, ◌+◌, ◌-◌, ◌*◌, ◌/◌, ◌%◌, ◌^◌, Bool, true, false, ltb, if◌then◌else◌, Option, none,
  some, List, [], ◌∷◌, ◌++◌, get_elem?, to_string, Result, ok, fail, check_failed, out_of_range,
  null_pointer, diverged, check, or_fail, ◌>>=◌, ◌>>◌,
}
use deep_inc.Worker.State.{Task, Tensor}

-- `((size - accumulated) > bound) ? bound : (size - accumulated)`, where `accumulated < size`.
unfoldable pub part_len : ℕ → ℕ → ℕ → ℕ
part_len size bound accumulated =
    if ltb bound (size - accumulated) then bound else size - accumulated

abbrev is_empty {ℓ} : {A : Type ℓ} → List A → Bool
is_empty [] = true
is_empty (x ∷ xs) = false

-- The compressor of a partition, if the tensor has any; the list is read at the partition's index.
unfoldable pub compressor_at : List ℕ → ℕ → Result (Option ℕ)
compressor_at cs i =
    if is_empty cs then ok none else (or_fail (get_elem? cs i) out_of_range >>= λ c. ok (some c))

-- `offset` and `len` are of type `unsigned int`. The key is given later.
unfoldable pub partition : Task → ℕ → ℕ → ℕ → ℕ → Option ℕ → Task
unfolding part_len
partition entry size bound accumulated i compressor = record entry {
  tensor_name = entry.tensor_name ++ b'_' ∷ to_string i;
  key = 0;
  offset = accumulated % 2 ^ 32;
  len = part_len size bound accumulated % 2 ^ 32;
  compressor = compressor;
}

abbrev pub cons_ok {ℓ} : {A : Type ℓ} → A → Result (List A) → Result (List A)
cons_ok x (ok xs) = ok (x ∷ xs)
cons_ok x (fail e) = fail e

unfoldable pub partition_from : ℕ → Task → List ℕ → ℕ → ℕ → ℕ → ℕ → Result (List Task)
partition_from zero entry cs size bound accumulated i = fail diverged
partition_from (suc fuel) entry cs size bound accumulated i =
    let n = part_len size bound accumulated % 2 ^ 32 in
    let rest = partition_from fuel entry cs size bound (accumulated + n) (i + 1) in
    if ltb accumulated size
    then (compressor_at cs i >>= λ c. cons_ok (partition entry size bound accumulated i c) rest)
    else ok []

-- `entry->tensor ? entry->tensor->size() : entry->output->size()`.
unfoldable pub entry_size : Task → Result ℕ
entry_size entry = elim entry.tensor [
  | some t ↦ ok t.size
  | none ↦ elim entry.output [ some t ↦ ok t.size | none ↦ fail null_pointer ]
]

abbrev pub is_set {ℓ} : {A : Type ℓ} → Option A → Bool
is_set none = false
is_set (some x) = true

-- The bound is `GetPartitionBound()`, the compressors are those of the tensor's context.
unfoldable pub partition_tensor : ℕ → List ℕ → Task → Result (List Task)
partition_tensor bound cs entry = do
  check (is_set entry.counter_ptr)
  size ← entry_size entry
  partition_from (suc size) entry cs size bound 0 0

-- The loop of `InitTensor` that makes the keys.
unfoldable pub keys_from : ℕ → ℕ → ℕ → ℕ → ℕ → Result (List ℕ)
keys_from zero size bound accumulated key = fail diverged
keys_from (suc fuel) size bound accumulated key =
    let n = part_len size bound accumulated in
    let rest = keys_from fuel size bound (accumulated + n) ((key + 1) % 2 ^ 64) in
    if ltb accumulated size then cons_ok key rest else ok []

-- `declared_key << 16` on `ps::Key`, which is `uint64_t`.
unfoldable pub start_key : ℕ → ℕ
start_key declared_key = declared_key * 2 ^ 16 % 2 ^ 64

unfoldable pub init_keys : ℕ → ℕ → ℕ → Result (List ℕ)
init_keys bound size declared_key = keys_from (suc size) size bound 0 (start_key declared_key)
