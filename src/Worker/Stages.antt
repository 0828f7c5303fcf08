-- ===== src/Worker/Stages.antt =====
-- The stages that a device takes a tensor through, and the loops that it starts for them:
-- `GetPushQueueList`, `GetPullQueueList`, the insertion of `EnqueueTensor` and the list of
-- `byteps_lazy_init`, all of deep_inc/common/operations.cc.
pub mod Chain
use deep_inc.Base.{
  ℕ, ◌+◌, Bool, true, false, ◌&&◌, ◌||◌, not, if◌then◌else◌, Option, none, some, List, [], ◌∷◌,
  ◌++◌, Result, ok, fail, out_of_range,
}
use deep_inc.Common.{
  QueueType, coordinate_reduce, reduce, copyd2h, pcie_reduce, coordinate_push, compress, push, pull,
  decompress, copyh2d, coordinate_broadcast, broadcast, queue_eq,
}
use deep_inc.Worker.ScheduledQueue.{Device}

abbrev push_if : Bool → QueueType → List QueueType
push_if b q = if b then q ∷ [] else []

unfoldable pub get_push_queue_list : Device → List QueueType
get_push_queue_list d =
    (if d.is_signal_root then reduce ∷ [] else coordinate_reduce ∷ reduce ∷ [])
    ++ push_if (d.is_distributed || d.is_cross_pcie_switch) copyd2h
    ++ push_if d.is_cross_pcie_switch pcie_reduce
    ++ push_if (d.is_distributed || d.is_cross_pcie_switch)
        (if d.is_root_device then push else coordinate_push)

unfoldable pub get_pull_queue_list : Device → List QueueType
get_pull_queue_list d =
    push_if (d.is_distributed && d.is_root_device) pull
    ++ push_if (d.is_distributed || d.is_cross_pcie_switch) copyh2d
    ++ (if d.is_signal_root then broadcast ∷ [] else coordinate_broadcast ∷ broadcast ∷ [])

-- `insert(find(begin, end, at), new)`: where `at` is missing, `find` gives the end.
unfoldable pub insert_before : QueueType → QueueType → List QueueType → List QueueType
insert_before at new [] = new ∷ []
insert_before at new (q ∷ qs) = if queue_eq q at then new ∷ q ∷ qs else q ∷ insert_before at new qs

abbrev cons_ok : QueueType → Result (List QueueType) → Result (List QueueType)
cons_ok q (ok qs) = ok (q ∷ qs)
cons_ok q (fail e) = fail e

-- `insert(find(begin, end, at) + 1, new)`: where `at` is missing, this is past the end.
unfoldable pub insert_after : QueueType → QueueType → List QueueType → Result (List QueueType)
insert_after at new [] = fail out_of_range
insert_after at new (q ∷ qs) =
    if queue_eq q at then ok (q ∷ new ∷ qs) else cons_ok q (insert_after at new qs)

-- What `EnqueueTensor` makes of the caller's list. The compressors are those of the tensor's context.
unfoldable pub add_compression : Device → List ℕ → List QueueType → Result (List QueueType)
add_compression d [] qs = ok qs
add_compression d (c ∷ cs) qs =
    if d.is_root_device
    then insert_after pull decompress (insert_before push compress qs)
    else ok qs

pub data LoopFunction : Type 0 where
  pull_loop decompress_loop pcie_reduce_loop copy_device2_host_loop push_loop : LoopFunction
  compress_loop root_copy_host2_device_loop coordinate_push_loop : LoopFunction
  non_root_copy_host2_device_loop non_root_copy_listen_loop sync_nccl_loop : LoopFunction
  root_nccl_loop coordinate_reduce_loop coordinate_broadcast_loop non_root_nccl_loop : LoopFunction

abbrev loops_if : Bool → List LoopFunction → List LoopFunction
loops_if b fs = if b then fs else []

unfoldable pub byteps_lazy_init : Device → List LoopFunction
byteps_lazy_init d =
    loops_if (d.is_distributed && d.is_root_device) (pull_loop ∷ decompress_loop ∷ [])
    ++ loops_if d.is_cross_pcie_switch (pcie_reduce_loop ∷ [])
    ++ loops_if (d.is_cross_pcie_switch || d.is_distributed) (
        copy_device2_host_loop
        ∷ (if d.is_root_device
            then push_loop ∷ compress_loop ∷ root_copy_host2_device_loop ∷ []
            else coordinate_push_loop ∷ non_root_copy_host2_device_loop ∷ non_root_copy_listen_loop
              ∷ []))
    ++ sync_nccl_loop
      ∷ (if d.is_signal_root
          then root_nccl_loop ∷ []
          else coordinate_reduce_loop ∷ coordinate_broadcast_loop ∷ non_root_nccl_loop ∷ [])
