-- ===== src/Worker/ScheduledQueue.antt =====
-- deep_inc/common/scheduled_queue.h and scheduled_queue.cc: the queue of one stage, with its order,
-- its credits and the ready table that gates it. A method runs under the queue's mutex, so it is one
-- function of the queue, the ready tables and the contexts. `ready` says which events have fired
-- when the method runs, and `now` is the clock that the profile reads.
pub mod Order
pub mod Dispatch
pub mod Priority
pub mod Credits
pub mod Gate
use deep_inc.Base.{
  ℕ, ◌+◌, ◌-◌, ◌*◌, ◌%◌, ◌^◌, Bool, true, false, not, ◌&&◌, ltb, leb, ◌==◌, if◌then◌else◌, Option,
  none, some, List, [], ◌∷◌, ◌++◌, length, update, ltb_ℤ, eqb_ℤ, Result, ok, fail, check_failed,
  check, ◌>>=◌, ◌>>◌,
}
use deep_inc.Common.{
  QueueType, coordinate_reduce, reduce, copyd2h, pcie_reduce, coordinate_push, compress, push, pull,
  decompress, copyh2d, coordinate_broadcast, broadcast, queue_index, queue_eq,
}
use deep_inc.Worker.State.{Task, Context, CommTime, is_named}
use deep_inc.Worker.ReadyTable.{ReadyTable, is_key_ready, set_ready_count, clear_ready_count}

-- The tables that `BytePSGlobal` owns, by number; the queues of COMPRESS and PUSH share one.
abbrev pub reduce_table : ℕ
reduce_table = 0

abbrev pub pcie_reduce_table : ℕ
pcie_reduce_table = 1

abbrev pub push_table : ℕ
push_table = 2

abbrev pub copy_table : ℕ
copy_table = 3

abbrev pub broadcast_table : ℕ
broadcast_table = 4

-- What the constructor asks of `BytePSGlobal` and of the environment: the credit is
-- `BYTEPS_SCHEDULING_CREDIT`, 0 if it is not set.
pub record Device : Type 0 where
  pub is_signal_root : Bool
  pub is_root_device : Bool
  pub is_cross_pcie_switch : Bool
  pub is_cpu_reducer_root : Bool
  pub is_distributed : Bool
  pub scheduling_credit : ℕ
  pub partition_bound : ℕ

pub record ScheduledQueue : Type 0 where
  pub sq : List Task
  pub credits : ℕ
  pub is_scheduled : Bool
  pub qt : QueueType
  pub rt : Option ℕ

-- The queue with what its methods reach through pointers.
pub record QueueState : Type 0 where
  pub queue : ScheduledQueue
  pub tables : ℕ → ReadyTable
  pub contexts : ℕ → Context

abbrev given : Bool → ℕ → Option ℕ
given b t = if b then some t else none

unfoldable pub table_of : Device → QueueType → Option ℕ
table_of d reduce = given d.is_signal_root reduce_table
table_of d pcie_reduce = given (d.is_cross_pcie_switch && d.is_cpu_reducer_root) pcie_reduce_table
table_of d compress = given d.is_root_device push_table
table_of d push = given d.is_root_device push_table
table_of d copyh2d = given (not d.is_root_device) copy_table
table_of d broadcast = given d.is_signal_root broadcast_table
table_of d _ = none

unfoldable pub create : Device → QueueType → ScheduledQueue
unfolding table_of
create d qt =
    let scheduled = queue_eq qt reduce && d.is_signal_root && not (d.scheduling_credit == 0) in
    record {
      sq = [];
      credits = if scheduled then d.partition_bound * d.scheduling_credit % 2 ^ 64 else 34359738368;
      is_scheduled = scheduled;
      qt = qt;
      rt = table_of d qt;
    }

-- From higher priority to lower, and within a priority from the first key to the last.
unfoldable pub runs_before : Task → Task → Bool
runs_before a b =
    if eqb_ℤ a.priority b.priority then ltb a.key b.key else ltb_ℤ b.priority a.priority

unfoldable pub insert_task : Task → List Task → List Task
insert_task t [] = t ∷ []
insert_task t (u ∷ us) = if runs_before u t then u ∷ insert_task t us else t ∷ u ∷ us

-- `std::sort` by `runs_before`. It may put tasks of equal priority and key in any order; here they
-- keep theirs.
unfoldable pub sort_tasks : List Task → List Task
sort_tasks [] = []
sort_tasks (t ∷ ts) = insert_task t (sort_tasks ts)

unfoldable pub add_task : ScheduledQueue → Task → Result ScheduledQueue
add_task q t = do
  let sq = q.sq ++ t ∷ []
  let q' = record q { sq = if q.is_scheduled then sort_tasks sq else sq }
  check (is_named t.tensor_name)
  ok q'

-- The start of a stage in the profile of a tensor, if it is being profiled.
unfoldable pub recorder_ts : ℕ → Task → (ℕ → Context) → Result (ℕ → Context)
recorder_ts now t contexts =
    let c = contexts t.context in
    if c.profile_flag
    then elim t.queue_list [
      | [] ↦ fail check_failed
      | this_op ∷ _ ↦
          let op = queue_index this_op in
          let entry : CommTime = record {
            start_t = now;
            dur = 0;
            key = t.key % 2 ^ 32;
            type = op;
          } in
          ok (
            update contexts t.context (record c {
              part_comm_time =
                  update c.part_comm_time t.key
                    (update (c.part_comm_time t.key) op (c.part_comm_time t.key op ++ entry ∷ []));
            }))
    ]
    else ok contexts

unfoldable pub event_ready : (ℕ → Bool) → Task → Bool
event_ready ready t = elim t.ready_event [ none ↦ true | some e ↦ ready e ]

unfoldable pub has_credit : ScheduledQueue → Task → Bool
has_credit q t = if q.is_scheduled then not (ltb q.credits t.len) else true

unfoldable pub key_ready : ScheduledQueue → (ℕ → ReadyTable) → Task → Bool
key_ready q tables t = elim q.rt [ none ↦ true | some i ↦ is_key_ready (tables i) t.key ]

-- The three tests that let the loop of `getTask` stop at a task.
unfoldable pub may_run : (ℕ → Bool) → ScheduledQueue → (ℕ → ReadyTable) → Task → Bool
may_run ready q tables t = event_ready ready t && has_credit q t && key_ready q tables t

abbrev pub behind {ℓ} : {A : Type ℓ} → A → Option (A × List A) → Option (A × List A)
behind t none = none
behind t (some (u, us)) = some (u, t ∷ us)

-- The first task that passes, and the list without it.
unfoldable pub take_first {ℓ} : {A : Type ℓ} → (A → Bool) → List A → Option (A × List A)
take_first p [] = none
take_first p (t ∷ ts) = if p t then some (t, ts) else behind t (take_first p ts)

unfoldable pub clear_table : Option ℕ → (ℕ → ReadyTable) → ℕ → ℕ → ReadyTable
clear_table none tables key = tables
clear_table (some i) tables key = update tables i (clear_ready_count (tables i) key)

-- The task that is handed out no longer waits for its event.
unfoldable pub hand_out : ℕ → QueueState → Task → List Task → Result (Option Task × QueueState)
hand_out now s t rest = do
  check (is_named t.tensor_name)
  let t' = record t { ready_event = none }
  contexts ← recorder_ts now t' s.contexts
  ok (some t', record s { queue = record (s.queue) { sq = rest }; contexts = contexts })

-- `getTask()`.
unfoldable pub get_task : (ℕ → Bool) → ℕ → QueueState → Result (Option Task × QueueState)
get_task ready now s =
    let q = s.queue in
    elim (take_first (may_run ready q s.tables) q.sq) [
      | none ↦ ok (none, s)
      | some (t, rest) ↦
          hand_out now
            (record s {
              queue = record q {
                credits = if q.is_scheduled then q.credits - t.len else q.credits;
              };
              tables = clear_table q.rt s.tables t.key;
            })
            t rest
    ]

abbrev pub behind_ok :
    Task → Result (Option (Task × List Task)) → Result (Option (Task × List Task))
behind_ok t (ok r) = ok (behind t r)
behind_ok t (fail e) = fail e

-- Every event that the loop passes must have fired.
unfoldable pub take_key : (ℕ → Bool) → ℕ → List Task → Result (Option (Task × List Task))
take_key ready key [] = ok none
take_key ready key (t ∷ ts) =
    let rest = take_key ready key ts in
    if event_ready ready t
    then if t.key == key then ok (some (t, ts)) else behind_ok t rest
    else fail check_failed

-- `getTask(key)`.
unfoldable pub get_task_by_key : (ℕ → Bool) → ℕ → QueueState → ℕ → Result (Option Task × QueueState)
get_task_by_key ready now s key = do
  check (not s.queue.is_scheduled)
  found ← take_key ready key s.queue.sq
  elim found [ none ↦ ok (none, s) | some (t, rest) ↦ hand_out now s t rest ]

unfoldable pub pending_size : ScheduledQueue → ℕ
pending_size q = length q.sq % 2 ^ 32

-- `size` is an `int`: the length of a task, an `unsigned`, is narrowed to it, and a length from
-- 2 ^ 31 on is negative when it is added to the `uint64_t`.
unfoldable pub report_finish : ScheduledQueue → ℕ → ScheduledQueue
report_finish q size =
    let bits = size % 2 ^ 32 in
    let added = if ltb bits (2 ^ 31) then bits else bits + (2 ^ 64 - 2 ^ 32) in
    if q.is_scheduled then record q { credits = (q.credits + added) % 2 ^ 64 } else q

unfoldable pub reset : QueueState → ℕ → ℕ → QueueState
reset s key cnt = elim s.queue.rt [
  | none ↦ s
  | some i ↦ record s { tables = update s.tables i (set_ready_count (s.tables i) key cnt) }
]
