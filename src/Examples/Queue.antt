-- ===== src/Examples/Queue.antt =====
-- A scheduled queue of two tasks, a gated one, and what they hand out.
use deep_inc.Base.{
  ℕ, ◌-◌, ◌≤◌, ◌≡◌, refl, Bool, true, false, ◌==◌, none, some, List, [], ◌∷◌, ◌++◌, update, ◌⊎◌, ℤ,
  pos, negsuc, ok, arith,
}
use mathlib.Core.List.{Perm}
use deep_inc.Common.{reduce, push, compress}
use deep_inc.Worker.State.{Task, Context}
use deep_inc.Worker.ReadyTable.{ReadyTable, is_key_ready, clear_ready_count}
use deep_inc.Worker.ScheduledQueue.{
  Device, ScheduledQueue, QueueState, add_task, get_task, may_run, take_first, hand_out,
  event_ready, has_credit, key_ready, recorder_ts, clear_table, runs_before, sort_tasks,
  insert_task,
}
use deep_inc.Worker.ScheduledQueue.Order.{IsSorted, add_task_lem}
use deep_inc.Worker.ScheduledQueue.Dispatch.{Dispatched, get_task-Dispatched}
use deep_inc.Worker.ScheduledQueue.Priority.{NoneBetter, get_task_best}
use deep_inc.Worker.ScheduledQueue.Credits.{
  Traffic, Call, Calls, running_len, running_len-le-credits,
}
use deep_inc.Worker.ScheduledQueue.Gate.{announce, gate_reopens}

abbrev pub task : ℕ → ℤ → ℕ → Task
task key priority len = record {
  tensor_name = b'g' ∷ [];
  key = key;
  context = 0;
  tensor = some (record { id = 1; size = 8 });
  output = none;
  priority = priority;
  version = pos 0;
  ready_event = some 7;
  device = pos 0;
  callback = 5;
  cpubuff = 0;
  gpu_ptr = 0;
  pcie_cpubuff = [];
  queue_list = reduce ∷ push ∷ [];
  offset = 0;
  len = len;
  counter_ptr = some 0;
  total_partnum = 2;
  compressor = none;
}

abbrev started : Task → Task
started t = record t { ready_event = none }

abbrev urgent : Task
urgent = task 2 (pos 1) 4

abbrev relaxed : Task
relaxed = task 1 (negsuc 0) 4

abbrev pub context : Context
context = record {
  initialized = true;
  tensor_name = b'g' ∷ [];
  declared_key = 0;
  key_list = 1 ∷ 2 ∷ [];
  cpubuff = 0;
  gpu_ptr = 0;
  pcie_cpubuff = [];
  buff_len = 8;
  comm_time = [];
  profile_flag = false;
  step_cnt = 0;
  local_rank = 0;
  part_comm_time = λ _ _. [];
  compressor_list = [];
  kwargs = [];
}

abbrev pub queue : List Task → ScheduledQueue
queue ts = record { sq = ts; credits = 6; is_scheduled = true; qt = reduce; rt = none }

abbrev pub tables : ℕ → ReadyTable
tables _ = record { counts = λ _. 2; ready_count = 2 }

abbrev state : ScheduledQueue → QueueState
state q = record { queue = q; tables = tables; contexts = λ _. context }

abbrev ready : ℕ → Bool
ready _ = true

abbrev never : ℕ → Bool
never _ = false

abbrev both : ScheduledQueue
both = queue (urgent ∷ relaxed ∷ [])

abbrev left : ScheduledQueue
left = record { sq = relaxed ∷ []; credits = 2; is_scheduled = true; qt = reduce; rt = none }

abbrev left_state : QueueState
left_state = record { queue = left; tables = tables; contexts = λ _. context }

run : get_task ready 3 (state both) ≡ ok (some (started urgent), left_state)
unfolding get_task take_first may_run hand_out event_ready has_credit key_ready recorder_ts
    clear_table
run = refl

run_blocked : get_task ready 3 left_state ≡ ok (none, left_state)
unfolding get_task take_first may_run hand_out event_ready has_credit key_ready recorder_ts
    clear_table
run_blocked = refl

added : add_task (queue (relaxed ∷ [])) urgent ≡ ok both
unfolding add_task sort_tasks insert_task runs_before
added = refl

sorted : IsSorted both.sq
unfolding runs_before
sorted = ((refl, tt), (tt, tt))

add_task_lem_example :
    Perm both.sq ((queue (relaxed ∷ [])).sq ++ urgent ∷ [])
    × (((queue (relaxed ∷ [])).is_scheduled ≡ true) × IsSorted both.sq
        ⊎ ((queue (relaxed ∷ [])).is_scheduled ≡ false) × (both.sq ≡ relaxed ∷ urgent ∷ []))
    × (both ≡ record (queue (relaxed ∷ [])) { sq = both.sq })
add_task_lem_example = add_task_lem (queue (relaxed ∷ [])) both urgent added

get_task-Dispatched_example : Dispatched ready 3 (state both) left_state (started urgent)
get_task-Dispatched_example =
    get_task-Dispatched ready 3 (state both) left_state (started urgent) run

get_task_best_example :
    NoneBetter (may_run ready (state both).queue (state both).tables) (started urgent) left.sq
    × IsSorted left.sq
get_task_best_example = get_task_best ready 3 (state both) left_state (started urgent) sorted run

abbrev idle : Traffic
idle = record { state = state both; running = [] }

abbrev busy : Traffic
busy = record { state = left_state; running = started urgent ∷ [] }

one_runs : Calls idle busy
one_runs = Calls.next Calls.here (Call.gets ready 3 run)

running_len-le-credits_example :
    (running_len busy.running ≤ idle.state.queue.credits)
    × (busy.state.queue.credits ≡ idle.state.queue.credits - running_len busy.running)
running_len-le-credits_example = running_len-le-credits idle busy refl refl (omega arith) one_runs

-- A queue with a ready table.
abbrev gated : ScheduledQueue
gated = record { sq = urgent ∷ []; credits = 0; is_scheduled = false; qt = compress; rt = some 2 }

abbrev gated_left : QueueState
gated_left = record {
  queue = record gated { sq = [] };
  tables = update tables 2 (record (tables 2) { counts = update (tables 2).counts 2 0 });
  contexts = λ _. context;
}

gated_run : get_task ready 3 (state gated) ≡ ok (some (started urgent), gated_left)
unfolding get_task take_first may_run hand_out event_ready has_credit key_ready recorder_ts
    clear_table is_key_ready clear_ready_count
gated_run = refl

gate_reopens_example :
    ((tables 2).counts 2 ≡ (tables 2).ready_count)
    × ((u : ReadyTable) × (announce 2 (gated_left.tables 2) 2 ≡ ok u)
        × (is_key_ready u 2 ≡ (2 == (tables 2).ready_count)))
gate_reopens_example =
    gate_reopens ready 3 (state gated) gated_left (started urgent) 2 2 refl gated_run (omega arith)

abbrev pub root : Device
root = record {
  is_signal_root = true;
  is_root_device = true;
  is_cross_pcie_switch = false;
  is_cpu_reducer_root = false;
  is_distributed = true;
  scheduling_credit = 0;
  partition_bound = 4;
}
