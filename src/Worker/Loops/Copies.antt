-- ===== src/Worker/Loops/Copies.antt =====
-- deep_inc/common/core_loops.cc: the loops that copy between the devices and the host, and that sum
-- the switches' buffers.
use deep_inc.Base.{
  ℕ, zero, suc, ◌+◌, Bool, not, ltb, ◌==◌, if◌then◌else◌, Option, none, some, [], ◌∷◌, get_elem?,
  update, Result, ok, fail, undefined, null_pointer, check_failed, out_of_range, check, or_fail,
  ◌>>=◌, ◌>>◌,
}
use deep_inc.Common.{copyd2h, pcie_reduce, copyh2d}
use deep_inc.Worker.State.{Task}
use deep_inc.Worker.ReadyTable.{add_ready_count}
use deep_inc.Worker.ScheduledQueue.{copy_table}
use deep_inc.Worker.Tasks.{BytePsCommMsg, do_copyh2d, pcie_reduce_ready, finish_or_proceed}
use deep_inc.Worker.Loops.{
  Device, Node, Pointer, cpu_buffer, signal_machine, signal_reducer_root, copied, summed, act, plus,
  next_task, divide, unit_len, own_slice, copy_slice, task_data,
}
use deep_inc.Worker.Loops.Groups.{comm_message}

abbrev pub finish : ℕ → Task → Node → Result Node
finish now t s = finish_or_proceed now t s.world >>= λ r. ok (record s { world = r.1 })

abbrev pub in_buffer : ℕ → ℕ → Pointer
in_buffer buffer offset = record { memory = cpu_buffer buffer; at = offset }

-- The buffer of the device's switch, or the one of the machine; with the offset it must not be null.
unfoldable pub host_buffer : Device → Task → Node → Result Pointer
host_buffer d t s = do
  buffer ←
      (if d.is_cross_pcie_switch
        then (divide d.local_rank s.nccl.nccl_size >>= λ i. elim t.pcie_cpubuff [
          | [] ↦ fail check_failed
          | _ ∷ _ ↦ or_fail (get_elem? t.pcie_cpubuff i) out_of_range
        ])
        else ok t.cpubuff)
  check (not (buffer + t.offset == 0))
  ok (in_buffer buffer t.offset)

-- A copy of a slice, unless it is empty.
unfoldable pub copy_range : (to from : Pointer) → ℕ × ℕ → Node → Node
copy_range to from (offset, zero) s = s
copy_range to from (offset, suc n) s = act s (copied (plus to offset) (plus from offset) (suc n))

-- After a reduction by NCCL the output is copied, else the input.
unfoldable pub copy_device_to_host : Device → Task → Node → Result Node
copy_device_to_host d t s = do
  x ← or_fail (if ltb 1 s.nccl.nccl_size then t.output else t.tensor) check_failed
  unit ← unit_len d x
  to ← host_buffer d t s
  slice ← copy_slice d s.nccl t.key unit t.len
  ok (copy_range to (task_data t x) slice s)

unfoldable pub run_copy_device_to_host_loop_once : Device → (ℕ → Bool) → ℕ → Node → Result Node
run_copy_device_to_host_loop_once d ready now s = next_task ready now copyd2h s >>= λ r. elim r.0 [
  | none ↦ ok r.1
  | some t ↦ copy_device_to_host d t r.1 >>= λ u. finish now t u
]

-- The device's share, summed into the machine's buffer from the first switch's.
unfoldable pub sum_range : Task → ℕ → ℕ × ℕ → Node → Result Node
sum_range t dtype (offset, zero) s = ok s
sum_range t dtype (offset, suc n) s = elim t.pcie_cpubuff [
  | [] ↦ fail undefined
  | first ∷ _ ↦
      let at = t.offset + offset in
      ok (act s (summed (in_buffer t.cpubuff at) (in_buffer first at) (suc n) dtype))
]

unfoldable pub pcie_reduce_task : Device → Task → Node → Result Node
pcie_reduce_task d t s =
    if not d.is_cpu_reducer_root
    then ok (act s (signal_reducer_root (comm_message d.local_rank pcie_reduce_ready t.key)))
    else (or_fail t.tensor null_pointer >>= λ x. unit_len d x >>= λ unit.
        own_slice s.nccl d.local_rank unit t.len >>= λ slice. sum_range t (d.dtype x.id) slice s)

unfoldable pub run_pcie_reduce_loop_once : Device → (ℕ → Bool) → ℕ → Node → Result Node
run_pcie_reduce_loop_once d ready now s =
    check d.is_cross_pcie_switch >> next_task ready now pcie_reduce s >>= λ r. elim r.0 [
      | none ↦ ok r.1
      | some t ↦ pcie_reduce_task d t r.1 >>= λ u. finish now t u
    ]

unfoldable pub copy_host_to_device : Device → Task → Node → Result Node
copy_host_to_device d t s = do
  x ← or_fail t.output check_failed
  check (not (t.cpubuff + t.offset == 0))
  unit ← unit_len d x
  slice ← copy_slice d s.nccl t.key unit t.len
  ok (copy_range (task_data t x) (in_buffer t.cpubuff t.offset) slice s)

-- The root tells the machine's other devices, if there are any.
unfoldable pub run_root_copy_host_to_device_loop_once : Device → (ℕ → Bool) → ℕ → Node → Result Node
run_root_copy_host_to_device_loop_once d ready now s = next_task ready now copyh2d s >>= λ r.
    elim r.0 [
      | none ↦ ok r.1
      | some t ↦
          let told = act r.1 (signal_machine (comm_message d.local_rank do_copyh2d t.key)) in
          copy_host_to_device d t (if ltb 1 d.local_size then told else r.1) >>= λ u. finish now t u
    ]

-- A signal of the root, unless the worker shuts down.
unfoldable pub run_non_root_copy_listen_loop_once :
    Device → Option BytePsCommMsg → Node → Result Node
run_non_root_copy_listen_loop_once d received s =
    check (not (d.basic_root == d.local_rank)) >> elim received [
      | none ↦ ok s
      | some msg ↦ elim msg.signal [
        | do_copyh2d ↦
            let w = s.world in
            add_ready_count (w.tables copy_table) msg.key >>= λ r.
            ok (record s { world = record w { tables = update w.tables copy_table r.1 } })
        | _ ↦ fail check_failed
      ]
    ]

unfoldable pub run_non_root_copy_host_to_device_loop_once :
    Device → (ℕ → Bool) → ℕ → Node → Result Node
run_non_root_copy_host_to_device_loop_once d ready now s = next_task ready now copyh2d s >>= λ r.
    elim r.0 [ none ↦ ok r.1 | some t ↦ copy_host_to_device d t r.1 >>= λ u. finish now t u ]
