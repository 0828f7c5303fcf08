-- ===== src/Worker/Nccl/Balance.antt =====
-- How the devices of a machine are split over switches, and who is connected with whom.
use native.Mathlib.Nat.{div-add-mod', mod-lt, mul-add-mod_self_right, mod-eq_of_lt, div-eq_of_lt-le}
use deep_inc.Base.{
  ℕ, zero, suc, ◌+◌, ◌*◌, ◌/◌, ◌%◌, ◌<◌, ◌≡◌, ◌∙◌, ap, subst, ◌==◌, inl, inr, Bool-cases, some,
  get_elem?, ok, >>=-eq-ok, arith,
}
use deep_inc.Worker.Partition.Tiles.{mul_mono, lt_of_mul}
use deep_inc.Worker.Nccl.{
  NcclEnv, NcclManager, pcie_switches, init_global_env, count_up, ring_peers, get_root, get_rank,
}

-- Every switch has as many devices as the others, and each device is on one.
pub record IsBalanced (local_size : ℕ) (m : NcclManager) : Type 0 where
  pub whole : m.nccl_pcie_num * m.nccl_pcie_size ≡ local_size
  pub some_device : 0 < m.nccl_pcie_size
  pub some_switch : 0 < m.nccl_pcie_num

pcie_switches_cover :
    (given local_size : ℕ)
    → 0 < local_size
    → (r : ℕ × ℕ) → pcie_switches given local_size ≡ ok r
    → (r.1 * r.0 ≡ local_size) × (0 < r.0) × (0 < r.1)
unfolding pcie_switches
pcie_switches_cover zero local_size pos r run = cc
pcie_switches_cover (suc n) local_size pos r run =
    let split = div-add-mod' local_size (suc n) in
    elim (Bool-cases (local_size / suc n == 0)) [
      | inl none_full ↦ ground (arith, none_full)
      | inr full ↦ elim (Bool-cases (local_size % suc n == 0)) [
        | inl even ↦ ground (arith, full, even, split)
        | inr uneven ↦ ground (arith, full, uneven)
      ]
    ]

-- The environment may set any switch size: with one that splits the devices unevenly, or that is
-- above their number, there is one switch.
init_global_env-IsBalanced :
    (e : NcclEnv) (local_size : ℕ) (m : NcclManager)
    → 0 < local_size
    → init_global_env e local_size ≡ ok m
    → IsBalanced local_size m
unfolding init_global_env
init_global_env-IsBalanced e local_size m pos run =
    let (r, split, made) = >>=-eq-ok _ _ run in
    let (whole, device, switch) = pcie_switches_cover _ local_size pos r split in
    let sizes : (r.0 ≡ m.nccl_pcie_size) × (r.1 ≡ m.nccl_pcie_num) = (cc, cc) in
    record {
      whole =
          subst (λ (n : ℕ). n * m.nccl_pcie_size ≡ local_size) sizes.1
            (subst (λ (n : ℕ). r.1 * n ≡ local_size) sizes.0 whole);
      some_device = subst (λ (n : ℕ). 0 < n) sizes.0 device;
      some_switch = subst (λ (n : ℕ). 0 < n) sizes.1 switch;
    }

get_elem?-count_up : (first n i : ℕ) → i < n → get_elem? (count_up first n) i ≡ some (first + i)
unfolding count_up
get_elem?-count_up first zero i h = absurd (omega arith)
get_elem?-count_up first (suc n) zero h = ap some (omega arith)
get_elem?-count_up first (suc n) (suc i) h =
    get_elem?-count_up (suc first) n i (omega arith) ∙ ap some (omega arith)

pub switch_of :
    (size k i : ℕ) → i < size → ((k * size + i) / size ≡ k) × ((k * size + i) % size ≡ i)
switch_of size k i h = (
  div-eq_of_lt-le size (omega arith) (omega arith),
  mul-add-mod_self_right k size i ∙ mod-eq_of_lt h,
)

-- What a device knows of the place `i` of its switch.
pub record Place (local_size : ℕ) (m : NcclManager) (rank i : ℕ) : Type 0 where
  pub device : ℕ
  pub is_peer : get_elem? (ring_peers m rank) i ≡ some device
  pub exists : device < local_size
  pub its_rank : get_rank m device ≡ i
  pub same_peers : ring_peers m device ≡ ring_peers m rank

ring_peers-Place :
    (local_size : ℕ) (m : NcclManager) (rank i : ℕ)
    → IsBalanced local_size m
    → rank < local_size
    → i < m.nccl_pcie_size
    → Place local_size m rank i
      × (get_elem? (ring_peers m rank) (get_rank m rank) ≡ some rank)
      × (get_root m < m.nccl_pcie_size)
unfolding ring_peers get_rank get_root
ring_peers-Place local_size m rank i balanced here inside =
    let size = m.nccl_pcie_size in
    let k = rank / size in
    let split = div-add-mod' rank size in
    let (its_switch, its_rank) = switch_of size k i inside in
    let below : k < m.nccl_pcie_num =
      lt_of_mul k m.nccl_pcie_num size (omega (arith, split, balanced.whole)) in
    (
      record {
        device = k * size + i;
        is_peer = get_elem?-count_up (k * size) size i inside;
        exists = omega (arith, balanced.whole, mul_mono (k + 1) m.nccl_pcie_num size (omega arith));
        its_rank = its_rank;
        same_peers = ap (λ (s : ℕ). count_up (s * size) size) its_switch;
      },
      get_elem?-count_up (k * size) size (rank % size) (mod-lt rank balanced.some_device)
          ∙ ap some split,
      omega (arith, balanced.some_device),
    )

-- When the manager's settings are read, from any environment, each place below a switch's size is
-- taken by one of the machine's devices among the peers of any of its devices: that device has the
-- place as its rank and the same peers. The device itself is the peer at its own rank, and the
-- root's rank is below the size of the switch.
pub init_global_env-Place :
    (e : NcclEnv) (local_size : ℕ) (m : NcclManager) (rank i : ℕ)
    → init_global_env e local_size ≡ ok m
    → rank < local_size
    → i < m.nccl_pcie_size
    → Place local_size m rank i
      × (get_elem? (ring_peers m rank) (get_rank m rank) ≡ some rank)
      × (get_root m < m.nccl_pcie_size)
init_global_env-Place e local_size m rank i run here inside =
    ring_peers-Place local_size m rank i
      (init_global_env-IsBalanced e local_size m (omega (arith, here)) run) here inside
