-- ===== src/Examples/Loops.antt =====
-- Devices on switches, their shares of a task, a group of NCCL's and the end of one.
use deep_inc.Base.{
  ℕ, ◌<◌, ◌≡◌, refl, Bool, true, false, none, some, List, [], ◌∷◌, ◌++◌, length, get_elem?, Result,
  ◌>>=◌, ok, fail, sym, ◌==◌, pos, if◌then◌else◌, arith,
}
use mathlib.Core.List.{nil≢cons}
use deep_inc.Common.{reduce}
use deep_inc.Worker.State.{Task}
use deep_inc.Worker.ScheduledQueue.{
  ScheduledQueue, get_task, get_task_by_key, may_run, take_first, take_key, hand_out, event_ready,
  has_credit, key_ready, recorder_ts, clear_table,
}
use deep_inc.Worker.Nccl.{
  NcclEnv, NcclManager, NcclGroupEntry, pcie_switches, init_global_env, ring_peers, get_root,
  get_rank,
}
use deep_inc.Worker.Nccl.Balance.{Place, init_global_env-Place}
use deep_inc.Worker.Tasks.{BytePsCommMsg, do_reduce, do_group}
use deep_inc.Worker.Loops.{
  Device, Node, next_task, next_task_by_key, unit_len, elem_shares, call_shares, post_nccl_calls,
  reduce_calls,
}
use deep_inc.Worker.Loops.Shares.{CopiedOnce, own_slice-CopiedOnce}
use deep_inc.Worker.Loops.Groups.{
  comm_message, announce_task, group_tasks, end_group, close_group, run_root_nccl_loop_once,
  stage_of, join_group, run_non_root_nccl_loop_once,
}
use deep_inc.Worker.Loops.Signals.{signals}
use deep_inc.Worker.Loops.Agree.{GroupsAgree, join_group-GroupsAgree}
use deep_inc.Worker.Loops.Drain.{sync_rounds, sync_calls_back}
use deep_inc.Worker.Loops.Transfers.{Network, Client, push_task, pull_task}
use deep_inc.Worker.Loops.SameKey.{IsSent, part_requests, push_then_pull}
use deep_inc.Examples.Parts.{settings, encoded}
use deep_inc.Examples.Queue.{task}
use deep_inc.Examples.Tasks.{world, last, is_last}

abbrev uneven : NcclEnv
uneven = record { group_size = none; pcie_switch_size = some 3; num_rings = none }

abbrev one_switch : NcclManager
one_switch = record {
  nccl_group_size = 4;
  nccl_pcie_size = 8;
  nccl_pcie_num = 1;
  nccl_num_rings = 1;
  nccl_size = 0;
  nccl_pipeline = [];
}

uneven_run : init_global_env uneven 8 ≡ ok one_switch
unfolding init_global_env pcie_switches
uneven_run = refl

abbrev manager : NcclManager
manager = record one_switch { nccl_pcie_size = 4; nccl_pcie_num = 2; nccl_size = 4 }

init_global_env-Place_example :
    Place 8 one_switch 6 1
    × (get_elem? (ring_peers one_switch 6) (get_rank one_switch 6) ≡ some 6)
    × (get_root one_switch < one_switch.nccl_pcie_size)
init_global_env-Place_example =
    init_global_env-Place uneven 8 one_switch 6 1 uneven_run (omega arith) (omega arith)

own_slice-CopiedOnce_example : CopiedOnce manager 1 4 72 70
own_slice-CopiedOnce_example =
    own_slice-CopiedOnce manager 1 4 72 70 refl (omega arith) (omega arith) refl (omega arith)

abbrev device : ℕ → Device
device rank = record {
  local_rank = rank;
  local_size = 4;
  signal_root = 3;
  basic_root = 3;
  is_using_reduce = false;
  reduce_roots = [];
  is_cross_pcie_switch = false;
  is_cpu_reducer_root = false;
  num_elements = λ _. 2;
  dtype = λ _. 0;
}

abbrev gradient : ℕ → Task
gradient key = record (task key (pos 0) 8) { output = some (record { id = 2; size = 8 }) }

abbrev unscheduled : List Task → ScheduledQueue
unscheduled ts = record { sq = ts; credits = 0; is_scheduled = false; qt = reduce; rt = none }

-- A device whose queue of reductions has these tasks.
abbrev holding : List Task → Node
holding ts = record {
  world = record world { queues = λ q. if q == 1 then unscheduled ts else unscheduled [] };
  nccl = manager;
  acts = [];
}

abbrev always : ℕ → Bool
always _ = true

abbrev sent : List BytePsCommMsg
sent = comm_message 3 do_reduce 5 ∷ comm_message 3 do_reduce 7 ∷ comm_message 3 do_group 0 ∷ []

abbrev value_or : {A : Type 0} → Result A → A → A
value_or (ok a) d = a
value_or (fail e) d = d

abbrev root_after : Node
root_after =
    value_or (run_root_nccl_loop_once (device 3) always 3 (holding (gradient 5 ∷ gradient 7 ∷ [])))
      (holding [])

abbrev other_after : List BytePsCommMsg × Node
other_after =
    value_or
      (run_non_root_nccl_loop_once (device 1) always 4 (sent ++ comm_message 3 do_reduce 9 ∷ [])
        (holding (gradient 9 ∷ gradient 7 ∷ gradient 5 ∷ [])))
      ([], holding [])

root_run :
    run_root_nccl_loop_once (device 3) always 3 (holding (gradient 5 ∷ gradient 7 ∷ []))
    ≡ ok root_after
unfolding run_root_nccl_loop_once group_tasks announce_task next_task get_task take_first may_run
    hand_out event_ready has_credit key_ready recorder_ts clear_table post_nccl_calls unit_len
    elem_shares call_shares
root_run = refl

root_sends : signals root_after.acts ≡ signals (holding (gradient 5 ∷ gradient 7 ∷ [])).acts ++ sent
unfolding run_root_nccl_loop_once group_tasks announce_task next_task get_task take_first may_run
    hand_out event_ready has_credit key_ready recorder_ts clear_table post_nccl_calls unit_len
    elem_shares call_shares close_group end_group reduce_calls
root_sends = refl

other_run :
    run_non_root_nccl_loop_once
      (device 1)
      always
      4
      (sent ++ comm_message 3 do_reduce 9 ∷ [])
      (holding (gradient 9 ∷ gradient 7 ∷ gradient 5 ∷ []))
    ≡ ok other_after
unfolding run_non_root_nccl_loop_once join_group stage_of next_task_by_key get_task_by_key take_key
    hand_out event_ready recorder_ts post_nccl_calls unit_len elem_shares call_shares
other_run = refl

join_group-GroupsAgree_example :
    (other_after.0 ≡ comm_message 3 do_reduce 9 ∷ [])
    × GroupsAgree
        (holding (gradient 5 ∷ gradient 7 ∷ []))
        root_after
        (holding (gradient 9 ∷ gradient 7 ∷ gradient 5 ∷ []))
        other_after.1
join_group-GroupsAgree_example =
    join_group-GroupsAgree (device 3) (device 1) always always 3 4
      (holding (gradient 5 ∷ gradient 7 ∷ [])) root_after
      (holding (gradient 9 ∷ gradient 7 ∷ gradient 5 ∷ [])) sent (comm_message 3 do_reduce 9 ∷ [])
      other_after (omega arith) root_run root_sends (λ e. nil≢cons (sym e)) other_run

abbrev group : List Task → NcclGroupEntry
group ts = record { tasks = ts; queues = []; events = [] }

abbrev syncing : Node
syncing = record {
  world = world;
  nccl = record manager { nccl_pipeline = group (last 1 ∷ []) ∷ group (last 2 ∷ []) ∷ [] };
  acts = [];
}

sync_calls_back_example :
    (s' : Node) × (sync_rounds 3 (length syncing.nccl.nccl_pipeline) syncing ≡ ok s')
    × (s'.nccl.nccl_pipeline ≡ [])
    × (s'.world.called ≡ syncing.world.called ++ 5 ∷ [])
sync_calls_back_example =
    sync_calls_back 3 0 0 2 5 syncing (is_last 1, (is_last 2, tt))
      (record { off = refl; no_trace = refl }) (omega arith) (omega arith)

abbrev network : Network
network = record {
  device = device 3;
  is_root_device = true;
  is_distributed = true;
  settings = settings;
  compressed = λ _. none;
}

abbrev client : Client
client = record { node = holding []; encoder = encoded; requests = [] }

abbrev part : Task
part = record (gradient 1) { cpubuff = 64 }

abbrev part_number : ℕ
part_number = 1048577

is_sent : IsSent network part client part_number
is_sent = record {
  on_root = refl;
  distributed = refl;
  has_buffer = refl;
  plain = refl;
  input = record { id = 1; size = 8 };
  tensor = refl;
  result = record { id = 2; size = 8 };
  output = refl;
  entry = record { keys = refl; len = 4; lens = refl; size = refl };
  some_bytes = omega arith;
  few_bytes = omega arith;
}

push_then_pull_example :
    (w' : Client) × ((push_task network 3 part client >>= λ u. pull_task network part u) ≡ ok w')
    × (w'.requests
        ≡ client.requests ++ part_requests network part part_number is_sent.input is_sent.result)
    × (w'.encoder.server_accumulated_len ≡ client.encoder.server_accumulated_len)
push_then_pull_example = push_then_pull network 3 part client part_number is_sent
