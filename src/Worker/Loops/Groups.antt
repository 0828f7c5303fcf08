-- ===== src/Worker/Loops/Groups.antt =====
-- deep_inc/common/core_loops.cc: RunRootNcclLoopOnce, RunNonRootNcclLoopOnce and RunSyncNcclOnce.
use deep_inc.Base.{
  ℕ, zero, suc, ltb, Bool, not, ◌==◌, if◌then◌else◌, Option, none, some, List, [], ◌∷◌, ◌++◌,
  Result, ok, fail, check_failed, check, or_fail, ◌>>=◌, ◌>>◌,
}
use deep_inc.Common.{QueueType, reduce, broadcast}
use deep_inc.Worker.State.{Task}
use deep_inc.Worker.Nccl.{NcclGroupEntry, record_events, enqueue_group, dequeue_group}
use deep_inc.Worker.Tasks.{BytePsCommMsg, BytePsCommSignal, do_reduce, do_broadcast, do_group}
use deep_inc.Worker.Tasks.Finish.{finish_all}
use deep_inc.Worker.Loops.{
  Device, Node, signal_switch, act, next_task, next_task_by_key, post_nccl_calls,
}

abbrev pub no_group : NcclGroupEntry
no_group = record { tasks = []; queues = []; events = [] }

abbrev pub group_push : NcclGroupEntry → Task → QueueType → NcclGroupEntry
group_push e t op = record e { tasks = e.tasks ++ t ∷ []; queues = e.queues ++ op ∷ [] }

abbrev pub signal_of : QueueType → BytePsCommSignal
signal_of reduce = do_reduce
signal_of _ = do_broadcast

abbrev pub comm_message : ℕ → BytePsCommSignal → ℕ → BytePsCommMsg
comm_message src signal key = record { src = src; signal = signal; key = key }

-- With other devices on the switch, they are told and NCCL is called.
unfoldable pub announce_task : Device → Task → QueueType → Node → Result Node
announce_task d t op s =
    if ltb 1 s.nccl.nccl_size
    then post_nccl_calls d t op
        (act s (signal_switch (comm_message d.local_rank (signal_of op) t.key)))
    else ok s

-- At most as many tasks of a stage as a group holds.
unfoldable pub group_tasks :
    Device → (ℕ → Bool) → ℕ → QueueType → ℕ → NcclGroupEntry → Node → Result (NcclGroupEntry × Node)
group_tasks d ready now op zero e s = ok (e, s)
group_tasks d ready now op (suc n) e s = next_task ready now op s >>= λ r. elim r.0 [
  | none ↦ ok (e, r.1)
  | some t ↦ announce_task d t op r.1 >>= λ u. group_tasks d ready now op n (group_push e t op) u
]

unfoldable pub end_group : NcclGroupEntry → Node → Node
end_group e s = record s { nccl = enqueue_group s.nccl (record_events s.nccl e) }

-- `DO_GROUP` ends the signals of a group, and only a group with a task is ended and kept.
unfoldable pub close_group : Device → NcclGroupEntry → Node → Node
close_group d e s = elim e.tasks [
  | [] ↦ s
  | _ ∷ _ ↦ end_group e (act s (signal_switch (comm_message d.local_rank do_group 0)))
]

unfoldable pub run_root_nccl_loop_once : Device → (ℕ → Bool) → ℕ → Node → Result Node
run_root_nccl_loop_once d ready now s = do
  check (d.local_rank == d.signal_root)
  r ← group_tasks d ready now reduce s.nccl.nccl_group_size no_group s
  q ← group_tasks d ready now broadcast r.1.nccl.nccl_group_size r.0 r.1
  ok (close_group d q.0 q.1)

-- The stage that a signal of the root names; `none` is the end of the group.
unfoldable pub stage_of : BytePsCommSignal → Result (Option QueueType)
stage_of do_group = ok none
stage_of do_broadcast = ok (some broadcast)
stage_of do_reduce = ok (some reduce)
stage_of _ = fail check_failed

-- The signals that arrive in the round. The shutdown, which drops the group, is the end of the list.
-- What has not been received is returned.
unfoldable pub join_group :
    Device
    → (ℕ → Bool)
    → ℕ
    → List BytePsCommMsg
    → NcclGroupEntry
    → Node
    → Result (Option NcclGroupEntry × List BytePsCommMsg × Node)
join_group d ready now [] e s = ok (none, [], s)
join_group d ready now (msg ∷ msgs) e s = stage_of msg.signal >>= λ op. elim op [
  | none ↦ ok (some e, msgs, s)
  | some op ↦ next_task_by_key ready now op msg.key s >>= λ r. or_fail r.0 check_failed >>= λ t.
      post_nccl_calls d t op r.1 >>= λ u. join_group d ready now msgs (group_push e t op) u
]

abbrev pub keep_group : Option NcclGroupEntry → Node → Node
keep_group none s = s
keep_group (some e) s = end_group e s

unfoldable pub run_non_root_nccl_loop_once :
    Device → (ℕ → Bool) → ℕ → List BytePsCommMsg → Node → Result (List BytePsCommMsg × Node)
run_non_root_nccl_loop_once d ready now msgs s = do
  check (not (d.local_rank == d.signal_root))
  r ← join_group d ready now msgs no_group s
  ok (r.1, keep_group r.0 r.2)

-- The oldest group, whose events have been waited for.
unfoldable pub run_sync_nccl_once : ℕ → Node → Result Node
run_sync_nccl_once now s =
    let r = dequeue_group s.nccl in
    elim r.0 [
      | none ↦ ok s
      | some e ↦ finish_all now e.tasks s.world >>= λ w. ok (record s { world = w; nccl = r.1 })
    ]
