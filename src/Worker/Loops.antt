-- ===== src/Worker/Loops.antt =====
-- deep_inc/common/core_loops.cc: the loops between FinishOrProceed and the stages. What they share is
-- here: a device's place, the calls they make outside, the next task of a stage, the devices' shares
-- of a task and the posting of NCCL's calls. The sleep of a round without a task is left out.
pub mod Groups
pub mod Copies
pub mod Transfers
pub mod SameKey
pub mod Shares
pub mod Signals
pub mod Root
pub mod Follow
pub mod Agree
pub mod Drain
use deep_inc.Base.{
  ℕ, zero, suc, ◌+◌, ◌-◌, ◌*◌, ◌/◌, ◌%◌, Bool, not, ◌==◌, ◌&&◌, if◌then◌else◌, Option, none, some,
  List, [], ◌∷◌, ◌++◌, length, get_elem?, update, ℤ, negsuc, eqb_ℤ, Result, ok, fail, undefined,
  null_pointer, check_failed, out_of_range, check, or_fail, ◌>>=◌, ◌>>◌, false,
}
use deep_inc.Common.{QueueType, reduce, broadcast, queue_index}
use deep_inc.Worker.State.{Task, Tensor, is_named}
use deep_inc.Worker.ScheduledQueue.{QueueState, get_task, get_task_by_key}
use deep_inc.Worker.KeyEncoder.{hash_djb2}
use deep_inc.Worker.Nccl.{NcclManager, get_comm, get_stream, get_root, get_rank}
use deep_inc.Worker.Tasks.{World, BytePsCommMsg}

-- An address: `at` bytes into a tensor's data, a GPU buffer or a CPU buffer.
pub data Memory : Type 0 where
  tensor_data gpu_buffer cpu_buffer : ℕ → Memory

pub record Pointer : Type 0 where
  pub memory : Memory
  pub at : ℕ

-- The calls of NCCL, with their elements, data type, communicator and stream; a rooted one has its
-- root before the communicator.
pub data NcclCall : Type 0 where
  reduce_scatter all_gather : (from to : Pointer) → (count dtype comm stream : ℕ) → NcclCall
  reduce_to broadcast_from : (from to : Pointer) → (count dtype root comm stream : ℕ) → NcclCall

-- What a loop does outside the worker's state, in order: signals to the other devices of the NCCL
-- communicator and of the machine, one to the root of the reducer, calls of NCCL, copies and sums.
pub data Act : Type 0 where
  signal_switch signal_machine signal_reducer_root : BytePsCommMsg → Act
  called_nccl : NcclCall → Act
  copied : (to from : Pointer) (len : ℕ) → Act
  summed : (to from : Pointer) (len dtype : ℕ) → Act

-- What the loops ask of `BytePSGlobal` and of the tensors of the framework, by their identity.
pub record Device : Type 0 where
  pub local_rank : ℕ
  pub local_size : ℕ
  pub signal_root : ℕ
  pub basic_root : ℕ
  pub is_using_reduce : Bool
  pub reduce_roots : List ℕ
  pub is_cross_pcie_switch : Bool
  pub is_cpu_reducer_root : Bool
  pub num_elements : ℕ → ℕ
  pub dtype : ℕ → ℕ

pub record Node : Type 0 where
  pub world : World
  pub nccl : NcclManager
  pub acts : List Act

abbrev pub act : Node → Act → Node
act s a = record s { acts = s.acts ++ a ∷ [] }

abbrev pub stage_state : World → QueueType → QueueState
stage_state w op = record {
  queue = w.queues (queue_index op);
  tables = w.tables;
  contexts = w.contexts;
}

abbrev pub put_stage : World → QueueType → QueueState → World
put_stage w op q = record w {
  queues = update w.queues (queue_index op) q.queue;
  tables = q.tables;
  contexts = q.contexts;
}

-- `getTask` on the queue of a stage.
unfoldable pub next_task : (ℕ → Bool) → ℕ → QueueType → Node → Result (Option Task × Node)
next_task ready now op s = do
  r ← get_task ready now (stage_state s.world op)
  ok (r.0, record s { world = put_stage s.world op r.1 })

unfoldable pub next_task_by_key :
    (ℕ → Bool) → ℕ → QueueType → ℕ → Node → Result (Option Task × Node)
next_task_by_key ready now op key s = do
  r ← get_task_by_key ready now (stage_state s.world op) key
  ok (r.0, record s { world = put_stage s.world op r.1 })

abbrev pub divide : ℕ → ℕ → Result ℕ
divide a zero = fail undefined
divide a (suc n) = ok (a / suc n)

-- The bytes of an element.
unfoldable pub unit_len : Device → Tensor → Result ℕ
unit_len d x = divide x.size (d.num_elements x.id)

-- `num_elem_per_gpu` and `left_elem`.
unfoldable pub elem_shares : NcclManager → (unit len : ℕ) → Result (ℕ × ℕ)
elem_shares m unit len = do
  per_gpu ← divide len m.nccl_size
  num_elem ← divide per_gpu unit
  elems ← divide len unit
  ok (num_elem, elems - num_elem * m.nccl_size)

unfoldable pub get_reduce_root_by_key : Device → ℕ → Result ℕ
get_reduce_root_by_key d key = elim d.reduce_roots [
  | [] ↦ fail undefined
  | _ ∷ _ ↦ or_fail (get_elem? d.reduce_roots (hash_djb2 key % length d.reduce_roots)) out_of_range
]

-- `copy_offset` and `copy_len` of a device, without the roots of BYTEPS_REDUCE_ROOTS.
unfoldable pub own_slice : NcclManager → (local_rank unit len : ℕ) → Result (ℕ × ℕ)
own_slice m local_rank unit len = do
  r ← elem_shares m unit len
  let rank = get_rank m local_rank
  let bytes = r.0 * unit
  ok (
    rank * r.0 * unit,
    if not (r.1 == 0) && (get_root m == rank) then bytes + r.1 * unit else bytes,
  )

-- The same with them: the root of a key has all of its bytes.
unfoldable pub copy_slice : Device → NcclManager → (key unit len : ℕ) → Result (ℕ × ℕ)
copy_slice d m key unit len = do
  r ← own_slice m d.local_rank unit len
  (if d.is_using_reduce
      then (get_reduce_root_by_key d key >>= λ root.
          ok (0, if root == get_rank m d.local_rank then len else 0))
      else ok r)

abbrev pub is_on_cpu : Task → Bool
is_on_cpu t = eqb_ℤ t.device (negsuc 0)

-- The bytes of a tensor that a task covers; those of a CPU tensor stand in the GPU buffer.
unfoldable pub task_data : Task → Tensor → Pointer
task_data t x =
    if is_on_cpu t
    then record { memory = gpu_buffer t.gpu_ptr; at = t.offset }
    else record { memory = tensor_data x.id; at = t.offset }

abbrev pub plus : Pointer → ℕ → Pointer
plus p n = record p { at = p.at + n }

abbrev same_tensor : Option Tensor → Option Tensor → Bool
same_tensor (some x) (some y) = x.id == y.id
same_tensor _ _ = false

-- Where a reduction puts its result: in the output, but for a CPU tensor that is its own output.
unfoldable pub reduce_target : Task → Pointer → Tensor → Pointer
reduce_target t p output =
    if is_on_cpu t && same_tensor t.tensor t.output
    then p
    else record { memory = tensor_data output.id; at = t.offset }

abbrev call_if : ℕ → NcclCall → List Act
call_if zero c = []
call_if (suc n) c = called_nccl c ∷ []

unfoldable pub reduce_calls :
    NcclManager
    → Task
    → (p out : Pointer) → (unit dtype rank root num_elem left_elem : ℕ) → List Act
reduce_calls m t p out unit dtype rank root num_elem left_elem =
    let comm = get_comm m t.key in
    let stream = get_stream m t.key in
    let rest = t.len - left_elem * unit in
    call_if num_elem
      (reduce_scatter p (plus out (rank * num_elem * unit)) num_elem dtype comm stream)
    ++ call_if left_elem (reduce_to (plus p rest) (plus out rest) left_elem dtype root comm stream)

unfoldable pub broadcast_calls :
    NcclManager → Task → Pointer → (unit dtype rank root num_elem left_elem : ℕ) → List Act
broadcast_calls m t p unit dtype rank root num_elem left_elem =
    let comm = get_comm m t.key in
    let stream = get_stream m t.key in
    let rest = t.len - left_elem * unit in
    call_if num_elem (all_gather (plus p (rank * num_elem * unit)) p num_elem dtype comm stream)
    ++ call_if left_elem
        (broadcast_from (plus p rest) (plus p rest) left_elem dtype root comm stream)

-- The root of the elements that are left, their number and the number of the shared ones.
unfoldable pub call_shares : Device → NcclManager → (key unit len : ℕ) → Result (ℕ × ℕ × ℕ)
call_shares d m key unit len = do
  r ← elem_shares m unit len
  (if d.is_using_reduce
      then (get_reduce_root_by_key d key >>= λ root.
          divide len unit >>= λ elems. ok (root, 0, elems))
      else ok (get_root m, r.0, r.1))

-- `BPS_CHECK_EQ(0, size % num_elements)` comes first; a tensor without elements is undefined there.
unfoldable pub post_nccl_calls : Device → Task → QueueType → Node → Result Node
post_nccl_calls d t op s = elim op [
  | reduce ↦ do
    x ← or_fail t.tensor check_failed
    unit ← unit_len d x
    check (x.size % d.num_elements x.id == 0)
    r ← call_shares d s.nccl t.key unit t.len
    check (is_named t.tensor_name)
    output ← or_fail t.output null_pointer
    let p = task_data t x
    ok (record s {
      acts =
          s.acts
          ++ reduce_calls s.nccl t p (reduce_target t p output) unit (d.dtype x.id)
              (get_rank s.nccl d.local_rank) r.0 r.1 r.2;
    })
  | broadcast ↦ do
    x ← or_fail t.output check_failed
    unit ← unit_len d x
    check (x.size % d.num_elements x.id == 0)
    r ← call_shares d s.nccl t.key unit t.len
    check (is_named t.tensor_name)
    ok (record s {
      acts =
          s.acts
          ++ broadcast_calls s.nccl t (task_data t x) unit (d.dtype x.id)
              (get_rank s.nccl d.local_rank) r.0 r.1 r.2;
    })
  | _ ↦ fail check_failed
]
