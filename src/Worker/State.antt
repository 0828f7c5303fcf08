-- ===== src/Worker/State.antt =====
-- The structures of deep_inc/common/common.h that the worker's loops share. A pointer is the number
-- of the object, so that tasks of one tensor share a context and a counter; an unset one is `none`.
use deep_inc.Base.{ℕ, ◌-◌, ◌^◌, Bool, true, false, Option, List, [], ◌∷◌, ℤ}
use deep_inc.Common.{QueueType}

-- `CommTime`, an entry of the profile. An `int` is kept as its 32 bits, so -1 is `no_stage`.
pub record CommTime : Type 0 where
  pub start_t : ℕ
  pub dur : ℕ
  pub key : ℕ
  pub type : ℕ

abbrev pub no_stage : ℕ
no_stage = 2 ^ 32 - 1

-- `Tensor`: its identity and its size in bytes.
pub record Tensor : Type 0 where
  pub id : ℕ
  pub size : ℕ

-- `BytePSContext`. The two maps of `part_comm_time` are read by `operator[]`, so a missing entry is
-- the empty queue; the front of a queue is the head of its list.
pub record Context : Type 0 where
  pub initialized : Bool
  pub tensor_name : List ℕ
  pub declared_key : ℕ
  pub key_list : List ℕ
  pub cpubuff : ℕ
  pub gpu_ptr : ℕ
  pub pcie_cpubuff : List ℕ
  pub buff_len : ℕ
  pub comm_time : List CommTime
  pub profile_flag : Bool
  pub step_cnt : ℕ
  pub local_rank : ℕ
  pub part_comm_time : ℕ → ℕ → List CommTime
  pub compressor_list : List ℕ
  pub kwargs : List (List ℕ × List ℕ)

-- `TensorTableEntry`: a tensor on its way, or one partition of it.
pub record Task : Type 0 where
  pub tensor_name : List ℕ
  pub key : ℕ
  pub context : ℕ
  pub tensor : Option Tensor
  pub output : Option Tensor
  pub priority : ℤ
  pub version : ℤ
  pub ready_event : Option ℕ
  pub device : ℤ
  pub callback : ℕ
  pub cpubuff : ℕ
  pub gpu_ptr : ℕ
  pub pcie_cpubuff : List ℕ
  pub queue_list : List QueueType
  pub offset : ℕ
  pub len : ℕ
  pub counter_ptr : Option ℕ
  pub total_partnum : ℕ
  pub compressor : Option ℕ

-- `s != ""`.
abbrev pub is_named : List ℕ → Bool
is_named [] = false
is_named (c ∷ cs) = true
