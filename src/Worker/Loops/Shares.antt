-- ===== src/Worker/Loops/Shares.antt =====
-- Where the slices of a switch's devices lie in a task.
use native.Mathlib.Nat.{div-add-mod', mul_assoc, div-mul-le_self}
use deep_inc.Base.{
  ℕ, zero, suc, ◌+◌, ◌-◌, ◌*◌, ◌/◌, ◌%◌, ◌≤◌, ◌<◌, ◌≡◌, ◌↔◌, ◌∙◌, refl, sym, ap, subst, not, ◌==◌,
  ◌&&◌, if◌then◌else◌, dec_lt, ok, ok_inj, arith,
}
use deep_inc.Worker.Partition.Tiles.{mul_mono, lt_of_mul}
use deep_inc.Worker.Nccl.{NcclManager, get_root, get_rank}
use deep_inc.Worker.Nccl.Balance.{switch_of}
use deep_inc.Worker.Loops.{divide, elem_shares, own_slice}

-- Where a device's bytes end, of `n` for each and `l` more for the last.
abbrev slice_end : ℕ → ℕ → ℕ → ℕ → ℕ
slice_end size n l r = if r + 1 == size then r * n + n + l else r * n + n

abbrev Holds : ℕ → ℕ → ℕ → ℕ → ℕ → Type 0
Holds size n l b r = (r * n ≤ b) × (b < slice_end size n l r)

find_below : (n b k : ℕ) → b < k * n → (r : ℕ) × (r < k) × (r * n ≤ b) × (b < r * n + n)
find_below n b zero h = absurd (omega arith)
find_below n b (suc k) h = elim (dec_lt b (k * n)) [
  | yes lt ↦ let (r, below, from, to) = find_below n b k lt in (r, omega (arith, below), from, to)
  | no ge ↦ (k, omega arith, omega (arith, ge), omega (arith, h))
]

find_holder :
    (size n l b : ℕ) → b < size * n + l → 0 < size → (r : ℕ) × (r < size) × Holds size n l b r
find_holder zero n l b h pos = absurd (omega arith)
find_holder (suc k) n l b h pos = elim (dec_lt b (k * n)) [
  | yes lt ↦
      let (r, below, from, to) = find_below n b k lt in
      (r, omega (arith, below), (from, ground (arith, below, to)))
  | no ge ↦ (k, omega arith, (omega (arith, ge), ground (arith, h)))
]

Holds-not_before :
    (size n l b r q : ℕ) → q < size → Holds size n l b r → Holds size n l b q → ¬ (r < q)
Holds-not_before size n l b r q inside at_r at_q less =
    let step : r * n + n ≤ q * n = omega (arith, mul_mono (r + 1) q n (omega (arith, less))) in
    ground (arith, at_r, at_q, step, less, inside)

Holds-unique :
    (size n l b r q : ℕ) → r < size → q < size → Holds size n l b r → Holds size n l b q → q ≡ r
Holds-unique size n l b r q r_in q_in at_r at_q = omega (
  arith,
  Holds-not_before size n l b r q q_in at_r at_q,
  Holds-not_before size n l b q r r_in at_q at_r,
)

divide-pos : (a n : ℕ) → 0 < n → divide a n ≡ ok (a / n)
divide-pos a zero h = absurd (omega arith)
divide-pos a (suc n) h = refl

-- Whether a byte is in a slice, given by its start and its length.
abbrev pub InSlice : ℕ → ℕ × ℕ → Type 0
InSlice b s = (s.0 ≤ b) × (b < s.0 + s.1)

abbrev slice_at : (size unit num_elem left_elem rank : ℕ) → ℕ × ℕ
slice_at size unit num_elem left_elem rank = (
  rank * num_elem * unit,
  if not (left_elem == 0) && (size - 1 == rank)
      then num_elem * unit + left_elem * unit
      else num_elem * unit,
)

abbrev left_of : ℕ → ℕ → ℕ → ℕ
left_of size unit len = len / unit - len / size / unit * size

own_slice-at :
    (m : NcclManager) (local_rank unit len : ℕ)
    → m.nccl_size ≡ m.nccl_pcie_size
    → 0 < m.nccl_pcie_size
    → 0 < unit
    → let size = m.nccl_pcie_size in
      own_slice m local_rank unit len
      ≡ ok (slice_at size unit (len / size / unit) (left_of size unit len) (get_rank m local_rank))
unfolding own_slice elem_shares get_root
own_slice-at m local_rank unit len same pos some_unit =
    rw
      (
        same,
        divide-pos len _ pos,
        divide-pos (len / m.nccl_pcie_size) _ some_unit,
        divide-pos len _ some_unit,
      )
      refl

slice_at-end :
    (size unit num_elem left_elem rank : ℕ)
    → rank < size
    → let s = slice_at size unit num_elem left_elem rank in
      s.0 + s.1 ≡ slice_end size (num_elem * unit) (left_elem * unit) rank
slice_at-end size unit num_elem zero rank inside =
    let at = mul_assoc rank num_elem unit in ground (arith, at)
slice_at-end size unit num_elem (suc l) rank inside =
    let at = mul_assoc rank num_elem unit in ground (arith, at, inside)

slice_at-Holds :
    (size unit num_elem left_elem rank b : ℕ)
    → rank < size
    → InSlice b (slice_at size unit num_elem left_elem rank)
      ↔ Holds size (num_elem * unit) (left_elem * unit) b rank
slice_at-Holds size unit num_elem left_elem rank b inside =
    let at = mul_assoc rank num_elem unit in
    let end = slice_at-end size unit num_elem left_elem rank inside in
    (
      λ h. (omega (arith, at, h.0), subst (λ (x : ℕ). b < x) end h.1),
      λ h. (omega (arith, at, h.0), subst (λ (x : ℕ). b < x) (sym end) h.1),
    )

share_out :
    (size unit n e : ℕ) → n * size ≤ e → size * (n * unit) + (e - n * size) * unit ≡ e * unit
share_out size unit n e h =
    let back : n * size + (e - n * size) ≡ e = omega (arith, h) in
    grind (arith, ap (λ (x : ℕ). x * unit) back)

-- The shares are the whole task, if it is made of whole elements.
shares-sum :
    (size unit len : ℕ)
    → 0 < size
    → 0 < unit
    → len % unit ≡ 0
    → size * (len / size / unit * unit) + left_of size unit len * unit ≡ len
shares-sum size unit len pos some_unit whole =
    let n = len / size / unit in
    let e = len / unit in
    let elems : e * unit ≡ len = omega (arith, div-add-mod' len unit, whole) in
    let fits : n * unit * size ≤ len = omega (
      arith,
      mul_mono (n * unit) (len / size) size (div-mul-le_self (len / size) unit),
      div-mul-le_self len size,
    ) in
    let few : n * size < e + 1 =
      lt_of_mul (n * size) (e + 1) unit (grind (arith, elems, fits, some_unit)) in
    share_out size unit n e (omega (arith, few)) ∙ elems

switched :
    (m : NcclManager) (k q : ℕ) → q < m.nccl_pcie_size → get_rank m (k * m.nccl_pcie_size + q) ≡ q
unfolding get_rank
switched m k q h = (switch_of m.nccl_pcie_size k q h).1

-- What is said of a device of switch `k`, that it copies a byte and no other one does.
pub record CopiedOnce (m : NcclManager) (k unit len b : ℕ) : Type 0 where
  pub rank : ℕ
  pub on_switch : rank < m.nccl_pcie_size
  pub slice : ℕ × ℕ
  pub is_slice : own_slice m (k * m.nccl_pcie_size + rank) unit len ≡ ok slice
  pub holds : InSlice b slice
  pub only :
      (q : ℕ) (other : ℕ × ℕ)
      → q < m.nccl_pcie_size
      → own_slice m (k * m.nccl_pcie_size + q) unit len ≡ ok other
      → InSlice b other
      → q ≡ rank

-- When the size of a communicator is that of a switch, which has a device, every byte of a task
-- that is made of whole elements lies in the slice of exactly one device of each switch, as the
-- slices are computed where no roots for reductions are set.
pub own_slice-CopiedOnce :
    (m : NcclManager) (k unit len b : ℕ)
    → m.nccl_size ≡ m.nccl_pcie_size
    → 0 < m.nccl_pcie_size
    → 0 < unit
    → len % unit ≡ 0
    → b < len
    → CopiedOnce m k unit len b
own_slice-CopiedOnce m k unit len b same pos some_unit whole inside =
    let size = m.nccl_pcie_size in
    let n = len / size / unit in
    let l = left_of size unit len in
    let (rank, here, at) =
      find_holder size (n * unit) (l * unit) b
        (omega (arith, shares-sum size unit len pos some_unit whole)) pos in
    let run : (q : ℕ)
        → q < size
        → own_slice m (k * size + q) unit len ≡ ok (slice_at size unit n l q) =
      λ q q_in.
        subst (λ (r : ℕ). own_slice m (k * size + q) unit len ≡ ok (slice_at size unit n l r))
          (switched m k q q_in) (own_slice-at m (k * size + q) unit len same pos some_unit) in
    record {
      rank = rank;
      on_switch = here;
      slice = slice_at size unit n l rank;
      is_slice = run rank here;
      holds = (slice_at-Holds size unit n l rank b here).1 at;
      only = λ q other q_in its held.
          Holds-unique size (n * unit) (l * unit) b rank q here q_in at (
            (slice_at-Holds size unit n l q b q_in).0
              (subst (InSlice b) (ok_inj (sym its ∙ run q q_in)) held));
    }
