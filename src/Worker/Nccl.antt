-- ===== src/Worker/Nccl.antt =====
-- deep_inc/common/nccl_manager.h and nccl_manager.cc: the manager of a device's NCCL groups. The
-- communicators, streams and events of CUDA are numbers here: a communicator is its place in
-- `_nccl_comm`, and a stream its place in `_nccl_stream`.
pub mod Balance
use deep_inc.Base.{
  ℕ, zero, suc, ◌-◌, ◌*◌, ◌/◌, ◌%◌, not, ◌==◌, if◌then◌else◌, Option, none, some, List, [], ◌∷◌,
  ◌++◌, Result, ok, fail, undefined, ◌>>=◌,
}
use deep_inc.Common.{QueueType}
use deep_inc.Worker.State.{Task}

-- `NcclGroupEntry`. A queue is named by its stage. An event waits for the stream it was recorded on.
pub record NcclGroupEntry : Type 0 where
  pub tasks : List Task
  pub queues : List QueueType
  pub events : List ℕ

-- `BYTEPS_NCCL_GROUP_SIZE`, `BYTEPS_PCIE_SWITCH_SIZE` and `BYTEPS_NCCL_NUM_RINGS`, where they are
-- set; none is negative.
pub record NcclEnv : Type 0 where
  pub group_size : Option ℕ
  pub pcie_switch_size : Option ℕ
  pub num_rings : Option ℕ

-- `NcclManager`. The front of the pipeline is the head of its list.
pub record NcclManager : Type 0 where
  pub nccl_group_size : ℕ
  pub nccl_pcie_size : ℕ
  pub nccl_pcie_num : ℕ
  pub nccl_num_rings : ℕ
  pub nccl_size : ℕ
  pub nccl_pipeline : List NcclGroupEntry

abbrev or_default : Option ℕ → ℕ → ℕ
or_default none d = d
or_default (some n) d = n

-- The size of a switch and the number of switches. A division by 0 is undefined.
unfoldable pub pcie_switches : ℕ → ℕ → Result (ℕ × ℕ)
pcie_switches zero local_size = fail undefined
pcie_switches (suc n) local_size =
    let pcie_size = suc n in
    let pcie_num = local_size / pcie_size in
    ok (
      if pcie_num == 0
      then (local_size, 1)
      else if not (local_size % pcie_size == 0)
      then (local_size, 1)
      else (pcie_size, pcie_num))

-- `InitGlobalEnv`. The size of the communicators is set with the rings, and the pipeline is empty.
unfoldable pub init_global_env : NcclEnv → ℕ → Result NcclManager
init_global_env e local_size = do
  r ← pcie_switches (or_default e.pcie_switch_size 8) local_size
  ok (record {
    nccl_group_size = or_default e.group_size 4;
    nccl_pcie_size = r.0;
    nccl_pcie_num = r.1;
    nccl_num_rings = or_default e.num_rings 1;
    nccl_size = 0;
    nccl_pipeline = [];
  })

unfoldable pub count_up : ℕ → ℕ → List ℕ
count_up first zero = []
count_up first (suc n) = first ∷ count_up (suc first) n

-- The devices on the switch of a device, which `ConstructRings` connects.
unfoldable pub ring_peers : NcclManager → ℕ → List ℕ
ring_peers m local_rank =
    count_up (local_rank / m.nccl_pcie_size * m.nccl_pcie_size) m.nccl_pcie_size

-- What `ConstructRings` keeps: the peers, which the signals go to, and the size of a communicator.
unfoldable pub construct_rings : NcclManager → ℕ → List ℕ × NcclManager
construct_rings m local_rank = (ring_peers m local_rank, record m { nccl_size = m.nccl_pcie_size })

unfoldable pub get_comm : NcclManager → ℕ → ℕ
get_comm m key = key % m.nccl_num_rings

unfoldable pub get_stream : NcclManager → ℕ → ℕ
get_stream m key = key % m.nccl_num_rings

-- Unsigned, so 0 - 1 would wrap around; a switch has a device.
unfoldable pub get_root : NcclManager → ℕ
get_root m = m.nccl_pcie_size - 1

unfoldable pub get_rank : NcclManager → ℕ → ℕ
get_rank m local_rank = local_rank % m.nccl_pcie_size

abbrev streams : NcclManager → List Task → List ℕ
streams m [] = []
streams m (t ∷ ts) = get_stream m t.key ∷ streams m ts

-- An event for each task, on the stream of its key.
unfoldable pub record_events : NcclManager → NcclGroupEntry → NcclGroupEntry
record_events m e = record e { events = e.events ++ streams m e.tasks }

unfoldable pub enqueue_group : NcclManager → NcclGroupEntry → NcclManager
enqueue_group m e = record m { nccl_pipeline = m.nccl_pipeline ++ e ∷ [] }

unfoldable pub dequeue_group : NcclManager → Option NcclGroupEntry × NcclManager
dequeue_group m = elim m.nccl_pipeline [
  | [] ↦ (none, m)
  | r ∷ rest ↦ (some r, record m { nccl_pipeline = rest })
]
