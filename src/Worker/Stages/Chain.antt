-- ===== src/Worker/Stages/Chain.antt =====
-- The chain of stages, the order of their numbers, and the loops that serve them.
use deep_inc.Base.{
  ℕ, ◌≡◌, refl, Bool, true, false, ◌&&◌, if◌then◌else◌, List, [], ◌∷◌, ◌++◌, map, contains, ltb,
  ◌⊎◌, sym, subst, Result-cases, inl, inr, Result, ok, fail, arith,
}
use deep_inc.Common.{
  QueueType, coordinate_reduce, reduce, copyd2h, pcie_reduce, coordinate_push, compress, push, pull,
  decompress, copyh2d, coordinate_broadcast, broadcast, queue_index,
}
use deep_inc.Worker.ScheduledQueue.{Device}
use deep_inc.Worker.Stages.{
  get_push_queue_list, get_pull_queue_list, insert_before, insert_after, add_compression,
  LoopFunction, pull_loop, decompress_loop, pcie_reduce_loop, copy_device2_host_loop, push_loop,
  compress_loop, root_copy_host2_device_loop, coordinate_push_loop, non_root_copy_host2_device_loop,
  non_root_copy_listen_loop, sync_nccl_loop, root_nccl_loop, coordinate_reduce_loop,
  coordinate_broadcast_loop, non_root_nccl_loop, byteps_lazy_init,
}

-- Every stage is numbered above the one before it.
pub is_ascending : List QueueType → Bool
is_ascending [] = true
is_ascending (q ∷ []) = true
is_ascending (q ∷ r ∷ qs) = ltb (queue_index q) (queue_index r) && is_ascending (r ∷ qs)

-- The stages of a push and a pull, in the order of a push-pull, with compression where it is on.
pub chain : Device → List ℕ → Result (List QueueType)
chain d cs = add_compression d cs (get_push_queue_list d ++ get_pull_queue_list d)

-- Which loop takes the tasks of a stage.
pub loop_of : Device → QueueType → LoopFunction
loop_of d coordinate_reduce = coordinate_reduce_loop
loop_of d reduce = if d.is_signal_root then root_nccl_loop else non_root_nccl_loop
loop_of d copyd2h = copy_device2_host_loop
loop_of d pcie_reduce = pcie_reduce_loop
loop_of d coordinate_push = coordinate_push_loop
loop_of d compress = compress_loop
loop_of d push = push_loop
loop_of d pull = pull_loop
loop_of d decompress = decompress_loop
loop_of d copyh2d =
    if d.is_root_device then root_copy_host2_device_loop else non_root_copy_host2_device_loop
loop_of d coordinate_broadcast = coordinate_broadcast_loop
loop_of d broadcast = if d.is_signal_root then root_nccl_loop else non_root_nccl_loop

abbrev number : LoopFunction → ℕ
number pull_loop = 0
number decompress_loop = 1
number pcie_reduce_loop = 2
number copy_device2_host_loop = 3
number push_loop = 4
number compress_loop = 5
number root_copy_host2_device_loop = 6
number coordinate_push_loop = 7
number non_root_copy_host2_device_loop = 8
number non_root_copy_listen_loop = 9
number sync_nccl_loop = 10
number root_nccl_loop = 11
number coordinate_reduce_loop = 12
number coordinate_broadcast_loop = 13
number non_root_nccl_loop = 14

-- Every stage of the list has its loop among those that the device starts.
pub all_served : Device → List QueueType → Bool
all_served d [] = true
all_served d (q ∷ qs) =
    contains (map number (byteps_lazy_init d)) (number (loop_of d q)) && all_served d qs

abbrev chain_works : Device → List ℕ → Bool
chain_works d cs = elim (chain d cs) [ fail e ↦ false | ok qs ↦ is_ascending qs && all_served d qs ]

abbrev for_all : (Bool → Bool) → Bool
for_all p = p false && p true

for_all_lem : (p : Bool → Bool) → for_all p ≡ true → (b : Bool) → p b ≡ true
for_all_lem p all false = ground (arith, all)
for_all_lem p all true = ground (arith, all)

abbrev device : Device → Bool → Bool → Bool → Bool → Device
device d signal root cross distributed = record d {
  is_signal_root = signal;
  is_root_device = root;
  is_cross_pcie_switch = cross;
  is_distributed = distributed;
}

works_plain : (d : Device) → chain_works d [] ≡ true
unfolding chain add_compression get_push_queue_list get_pull_queue_list is_ascending all_served
    loop_of byteps_lazy_init contains
works_plain d =
    for_all_lem
      (λ s. chain_works (device d s d.is_root_device d.is_cross_pcie_switch d.is_distributed) [])
      (for_all_lem
        (λ r. for_all (λ s. chain_works (device d s r d.is_cross_pcie_switch d.is_distributed) []))
        (for_all_lem
          (λ c. for_all (λ r. for_all (λ s. chain_works (device d s r c d.is_distributed) [])))
          (for_all_lem
            (λ e. for_all (λ c. for_all (λ r. for_all (λ s. chain_works (device d s r c e) []))))
            refl d.is_distributed)
          d.is_cross_pcie_switch)
        d.is_root_device)
      d.is_signal_root

works_compressed :
    (d : Device) (c : ℕ) (cs : List ℕ) → d.is_distributed ≡ true → chain_works d (c ∷ cs) ≡ true
unfolding chain add_compression insert_before insert_after get_push_queue_list get_pull_queue_list
    is_ascending all_served loop_of byteps_lazy_init contains
works_compressed d c cs on =
    subst
      (λ e.
        chain_works (device d d.is_signal_root d.is_root_device d.is_cross_pcie_switch e) (c ∷ cs)
        ≡ true)
      (sym on)
      (for_all_lem
        (λ s. chain_works (device d s d.is_root_device d.is_cross_pcie_switch true) (c ∷ cs))
        (for_all_lem
          (λ r. for_all (λ s. chain_works (device d s r d.is_cross_pcie_switch true) (c ∷ cs)))
          (for_all_lem
            (λ x. for_all (λ r. for_all (λ s. chain_works (device d s r x true) (c ∷ cs)))) refl
            d.is_cross_pcie_switch)
          d.is_root_device)
        d.is_signal_root)

chain_result :
    (d : Device) (cs : List ℕ)
    → chain_works d cs ≡ true
    → (qs : List QueueType) × (chain d cs ≡ ok qs)
      × (is_ascending qs ≡ true)
      × (all_served d qs ≡ true)
chain_result d cs works = elim (Result-cases (chain d cs)) [
  | inl (qs, e) ↦ (qs, e, ground (arith, works, e), ground (arith, works, e))
  | inr (x, e) ↦ ground (arith, works, e)
]

-- For every device that is in a distributed job, or a tensor without compressors on any device, the
-- push list followed by the pull list, with the stages of compression added, is a list of stages
-- whose numbers grow strictly, and every stage of it has its loop among those that the device
-- starts.
pub chain-is_ascending :
    (d : Device) (cs : List ℕ)
    → (d.is_distributed ≡ true) ⊎ (cs ≡ [])
    → (qs : List QueueType) × (chain d cs ≡ ok qs)
      × (is_ascending qs ≡ true)
      × (all_served d qs ≡ true)
chain-is_ascending d [] may = chain_result d [] (works_plain d)
chain-is_ascending d (c ∷ cs) (inl on) = chain_result d (c ∷ cs) (works_compressed d c cs on)
chain-is_ascending d (c ∷ cs) (inr none_there) = cc none_there
