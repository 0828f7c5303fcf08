-- ===== src/Worker/Tasks/Enqueue.antt =====
-- `EnqueueTensor` of deep_inc/common/operations.cc.
pub mod Parts
use deep_inc.Base.{
  ℕ, ◌+◌, ◌%◌, ◌^◌, Bool, true, ◌==◌, if◌then◌else◌, Option, none, some, List, [], ◌∷◌, ◌++◌,
  length, update, sum, map, ℤ, negsuc, eqb_ℤ, Result, ok, fail, check_failed, out_of_range,
  null_pointer, check, or_fail, ◌>>=◌, ◌>>◌,
}
use deep_inc.Common.{QueueType, queue_index}
use deep_inc.Worker.State.{Task, Tensor, Context, CommTime, is_named, no_stage}
use deep_inc.Worker.ScheduledQueue.{Device, ScheduledQueue, add_task}
use deep_inc.Worker.Partition.{partition_tensor}
use deep_inc.Worker.Stages.{add_compression}
use deep_inc.Worker.Tasks.{World, put_context, put_queue}

-- What the call is given. `ctx` is the number of the tensor's context.
pub record Request : Type 0 where
  pub ctx : ℕ
  pub input : Option Tensor
  pub output : Option Tensor
  pub ready_event : Option ℕ
  pub device : ℤ
  pub priority : ℤ
  pub version : ℤ
  pub callback : ℕ
  pub queue_list : List QueueType

unfoldable pub sizes_match : Request → Bool
sizes_match r = elim r.input [
  | none ↦ true
  | some i ↦ elim r.output [ none ↦ true | some o ↦ i.size == o.size ]
]

-- A tensor on the CPU is pinned; `device_pointer` is `cudaHostGetDevicePointer` of its data. The id of
-- a tensor stands for its address.
unfoldable pub pin : (ℕ → ℕ) → Request → Context → Result Context
pin device_pointer r c =
    if eqb_ℤ r.device (negsuc 0)
    then (or_fail r.input null_pointer >>= λ i. ok (record c { gpu_ptr = device_pointer i.id }))
    else ok c

unfoldable pub make_entry : Request → Context → List QueueType → ℕ → Task
make_entry r c qs counter = record {
  tensor_name = c.tensor_name;
  key = 0;
  context = r.ctx;
  tensor = r.input;
  output = r.output;
  priority = r.priority;
  version = r.version;
  ready_event = r.ready_event;
  device = r.device;
  callback = r.callback;
  cpubuff = c.cpubuff;
  gpu_ptr = c.gpu_ptr;
  pcie_cpubuff = c.pcie_cpubuff;
  queue_list = qs;
  offset = 0;
  len = 0;
  counter_ptr = some counter;
  total_partnum = length c.key_list % 2 ^ 32;
  compressor = none;
}

-- Every partition gets its key and goes to the first queue.
unfoldable pub add_tasks : List Task → List ℕ → ScheduledQueue → Result ScheduledQueue
add_tasks [] keys q = ok q
add_tasks (t ∷ ts) [] q = fail out_of_range
add_tasks (t ∷ ts) (k ∷ ks) q = add_task q (record t { key = k }) >>= λ q'. add_tasks ts ks q'

abbrev pub lens : List Task → ℕ
lens ts = sum (map (λ (t : Task). t.len) ts)

unfoldable pub profile_start : ℕ → Context → Context
profile_start now c =
    let entry : CommTime = record { start_t = now; dur = 0; key = no_stage; type = no_stage } in
    if c.profile_flag then record c { comm_time = c.comm_time ++ entry ∷ [] } else c

abbrev pub first_set : Option Tensor → Option Tensor → Option Tensor
first_set (some t) o = some t
first_set none o = o

-- The partitions of an entry go into its first queue; without a queue the caller is answered at once.
unfoldable pub start_entry : ℕ → Request → List Task → List QueueType → World → Result World
start_entry now r parts [] w = do
  check (is_named (w.contexts r.ctx).tensor_name)
  ok (record w { called = w.called ++ r.callback ∷ [] })
start_entry now r parts (q ∷ qs) w = do
  let c = profile_start now (w.contexts r.ctx)
  s ← add_tasks parts c.key_list (w.queues (queue_index q))
  t ← or_fail (first_set r.input r.output) check_failed
  check (lens parts % 2 ^ 64 == t.size)
  ok (put_queue (put_context w r.ctx c) q s)

-- The caller's list of stages is changed in place, and returned here.
unfoldable pub enqueue_tensor :
    Device → (ℕ → ℕ) → Bool → ℕ → Request → World → Result (List QueueType × World)
enqueue_tensor d device_pointer should_shutdown now r w =
    if should_shutdown then ok (r.queue_list, w) else (do
      check (sizes_match r)
      qs ← add_compression d (w.contexts r.ctx).compressor_list r.queue_list
      c ← pin device_pointer r (w.contexts r.ctx)
      let entry = make_entry r c qs w.next_counter
      let u = record (put_context w r.ctx c) {
        counters = update w.counters w.next_counter 0;
        next_counter = w.next_counter + 1;
      }
      parts ← partition_tensor d.partition_bound c.compressor_list entry
      check (length c.key_list == length parts)
      v ← start_entry now r parts qs u
      ok (qs, v))
