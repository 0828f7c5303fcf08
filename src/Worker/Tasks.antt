-- ===== src/Worker/Tasks.antt =====
-- How a task leaves a stage: `FinishOrProceed` and `RunCoordinateLoopOnce` of
-- deep_inc/common/core_loops.cc. The sampling of tensors only writes to the log and is left out. A
-- thread of the worker runs one of these calls at a time; what several threads share is in `World`.
pub mod Enqueue
pub mod Finish
use deep_inc.Base.{
  ℕ, ◌+◌, ◌-◌, ◌%◌, ◌^◌, Bool, true, false, not, ◌&&◌, leb, ltb, ◌==◌, if◌then◌else◌, Option, none,
  some, List, [], ◌∷◌, ◌++◌, length, update, ℤ, negsuc, eqb_ℤ, Result, ok, fail, check_failed,
  out_of_range, null_pointer, check, or_fail, ◌>>=◌, ◌>>◌,
}
use deep_inc.Common.{
  QueueType, coordinate_reduce, coordinate_push, coordinate_broadcast, queue_index,
}
use deep_inc.Worker.State.{Task, Tensor, Context, CommTime, is_named}
use deep_inc.Worker.ReadyTable.{ReadyTable}
use deep_inc.Worker.ScheduledQueue.{ScheduledQueue, QueueState, add_task, report_finish, get_task}
use deep_inc.Worker.Trace.{Trace, set_profile_flag, PushPullSpeed, record_speed}

pub data BytePsCommSignal : Type 0 where
  reduce_ready pcie_reduce_ready bcast_ready push_ready : BytePsCommSignal
  do_reduce do_broadcast do_group do_copyh2d : BytePsCommSignal

-- The two communicators that a device reports to: the one of NCCL's signals, and the basic one.
pub data Comm : Type 0 where
  signal_comm basic_comm : Comm

-- `BytePSCommMsg`.
pub record BytePsCommMsg : Type 0 where
  pub src : ℕ
  pub signal : BytePsCommSignal
  pub key : ℕ

-- The worker's state. `queues` is by the stage's number. `called` are the callbacks that have run, and
-- `sent` the messages to a root, both oldest first.
pub record World : Type 0 where
  pub queues : ℕ → ScheduledQueue
  pub tables : ℕ → ReadyTable
  pub contexts : ℕ → Context
  pub counters : ℕ → ℕ
  pub next_counter : ℕ
  pub called : List ℕ
  pub sent : List (Comm × BytePsCommMsg)
  pub trace : Trace
  pub speed : PushPullSpeed

-- `back()` of a queue, undefined on an empty one, with its duration set to the time since its start.
-- The duration must be 0 before.
unfoldable pub close_last : ℕ → List CommTime → Result (List CommTime)
close_last now [] = fail out_of_range
close_last now (x ∷ []) = check (x.dur == 0) >> ok (record x { dur = now - x.start_t } ∷ [])
close_last now (x ∷ y ∷ xs) = close_last now (y ∷ xs) >>= λ rest. ok (x ∷ rest)

abbrev pub put_context : World → ℕ → Context → World
put_context w i c = record w { contexts = update w.contexts i c }

abbrev pub put_queue : World → QueueType → ScheduledQueue → World
put_queue w q s = record w { queues = update w.queues (queue_index q) s }

-- The end of a stage in the profile.
unfoldable pub close_stage : ℕ → Task → QueueType → World → Result World
close_stage now t q w =
    let c = w.contexts t.context in
    if c.profile_flag
    then (close_last now (c.part_comm_time t.key (queue_index q)) >>= λ times. ok (
        put_context w t.context (record c {
          part_comm_time =
              update c.part_comm_time t.key (update (c.part_comm_time t.key) (queue_index q) times);
        })))
    else ok w

unfoldable pub pass_on : Task → QueueType → World → Result World
pass_on t q w = do
  check (is_named t.tensor_name)
  s ← add_task (w.queues (queue_index q)) t
  ok (put_queue w q s)

-- `fetch_add` on the tensor's counter: the count before it is returned.
unfoldable pub count_part : Task → World → Result (ℕ × World)
count_part t w = do
  i ← or_fail t.counter_ptr check_failed
  ok (w.counters i, record w { counters = update w.counters i (w.counters i + 1) })

-- What follows the callback: the profile, the step and its tracing.
unfoldable pub end_step : ℕ → Task → World → Result World
end_step now t w = do
  let c = w.contexts t.context
  times ← (if c.profile_flag then close_last now c.comm_time else ok c.comm_time)
  r ← set_profile_flag w.trace (record c { comm_time = times; step_cnt = c.step_cnt + 1 })
  ok (record (put_context w t.context r.1) { trace = r.0 })

unfoldable pub note_speed : ℕ → Task → World → Result World
note_speed now t w =
    if w.speed.should_record
    then (or_fail t.tensor null_pointer >>= λ x.
        ok (record w { speed = record_speed w.speed now x.size }))
    else ok w

-- The last part of a tensor: the caller hears of it.
unfoldable pub finish_tensor : ℕ → Task → World → Result World
finish_tensor now t w = do
  check (is_named t.tensor_name)
  u ← note_speed now t w
  end_step now t (record u { called = u.called ++ t.callback ∷ [] })

-- `v == (int)(task->total_partnum - 1)`, where `v` is not negative.
unfoldable pub finish_part : ℕ → Task → World → Result World
finish_part now t w = do
  r ← count_part t w
  (if r.0 + 1 == t.total_partnum then finish_tensor now t r.1 else ok r.1)

-- The task is returned as it is after the call.
unfoldable pub finish_or_proceed : ℕ → Task → World → Result (Task × World)
finish_or_proceed now t w = elim t.queue_list [
  | [] ↦ fail check_failed
  | this_op ∷ rest ↦ do
    let q = report_finish (w.queues (queue_index this_op)) t.len
    u ← close_stage now t this_op (put_queue w this_op q)
    let t' = record t { queue_list = rest }
    v ← elim rest [ [] ↦ finish_part now t' u | r ∷ rs ↦ pass_on t' r u ]
    ok (t', v)
]

-- Where a coordinate loop reports to, and what. The other stages have no such loop.
unfoldable pub coordinates : QueueType → Result (Comm × BytePsCommSignal)
coordinates coordinate_reduce = ok (signal_comm, reduce_ready)
coordinates coordinate_broadcast = ok (signal_comm, bcast_ready)
coordinates coordinate_push = ok (basic_comm, push_ready)
coordinates _ = fail check_failed

-- One round of a coordinate loop; `none` if there was no task. `ready` says which events have fired,
-- `rank` is the local rank, and `root` gives the root of a communicator.
unfoldable pub run_coordinate_loop_once :
    (ℕ → Bool) → ℕ → ℕ → (Comm → ℕ) → QueueType → World → Result (Option Task × World)
run_coordinate_loop_once ready now rank root this_op w = do
  let s : QueueState = record {
    queue = w.queues (queue_index this_op);
    tables = w.tables;
    contexts = w.contexts;
  }
  r ← get_task ready now s
  let u = record w {
    queues = update w.queues (queue_index this_op) r.1.queue;
    tables = r.1.tables;
    contexts = r.1.contexts;
  }
  elim r.0 [
    | none ↦ ok (none, u)
    | some t ↦ do
      p ← finish_or_proceed now t u
      to ← coordinates this_op
      check (not (rank == root to.0))
      let msg : BytePsCommMsg = record { src = rank; signal = to.1; key = t.key }
      check (is_named t.tensor_name)
      ok (some p.0, record (p.1) { sent = p.1.sent ++ (to.0, msg) ∷ [] })
  ]
