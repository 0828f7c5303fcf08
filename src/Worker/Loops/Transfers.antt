-- ===== src/Worker/Loops/Transfers.antt =====
-- deep_inc/common/core_loops.cc: RunPushLoopOnce and RunPullLoopOnce. What ps-lite is asked for is
-- kept in order; it calls back when a request is done. The field `compressed` of a task, which the
-- loop of COMPRESS sets, is a parameter: it is cleared here and not read again.
use deep_inc.Base.{
  ℕ, Bool, not, ◌==◌, if◌then◌else◌, Option, none, some, List, [], ◌∷◌, ◌++◌, Result, ok,
  null_pointer, check, or_fail, ◌>>=◌, ◌>>◌,
}
use deep_inc.Common.{push, pull, get_command_type}
use deep_inc.Worker.Init.{default_push_pull}
use deep_inc.Worker.State.{Task}
use deep_inc.Worker.KeyEncoder.{Settings, Encoder, encode_default_key}
use deep_inc.Worker.Loops.{Device, Node, Pointer, next_task}
use deep_inc.Worker.Loops.Copies.{in_buffer, finish}

-- `ZPush` and `ZPull`: the numbers and the lengths for ps-lite, where the values are and how many
-- bytes, the command, and the task that goes on when the request is done.
pub data KvRequest : Type 0 where
  zpush zpull : (keys lens : List ℕ) (vals : Pointer) (len cmd : ℕ) (task : Task) → KvRequest

pub record Network : Type 0 where
  pub device : Device
  pub is_root_device : Bool
  pub is_distributed : Bool
  pub settings : Settings
  pub compressed : Task → Option (Pointer × ℕ)

pub record Client : Type 0 where
  pub node : Node
  pub encoder : Encoder
  pub requests : List KvRequest

-- The bytes to push: the compressed ones, or those of the task in the buffer.
unfoldable pub push_vals : Network → Task → Pointer × ℕ
push_vals p t = elim (p.compressed t) [
  | none ↦ (in_buffer t.cpubuff t.offset, t.len)
  | some vals ↦ vals
]

abbrev finish_task : ℕ → Task → Client → Result Client
finish_task now t w = finish now t w.node >>= λ s. ok (record w { node = s })

abbrev pub ask : Client → Encoder → KvRequest → Client
ask w e q = record w { encoder = e; requests = w.requests ++ q ∷ [] }

unfoldable pub push_task : Network → ℕ → Task → Client → Result Client
push_task p now t w =
    check p.is_root_device
    >> (if p.is_distributed
        then (check (not (t.cpubuff == 0)) >> or_fail t.tensor null_pointer >>= λ x.
            let vals = push_vals p t in
            let cmd = get_command_type default_push_pull (p.device.dtype x.id) in
            encode_default_key p.settings w.encoder t.key vals.1 >>= λ r.
            ok (ask w r.1 (zpush r.0.keys r.0.lens vals.0 vals.1 cmd t)))
        else check p.device.is_cross_pcie_switch >> finish_task now t w)

unfoldable pub pull_task : Network → Task → Client → Result Client
pull_task p t w =
    check p.is_root_device >> check (not (t.cpubuff == 0)) >> or_fail t.output null_pointer >>= λ x.
    let cmd = get_command_type default_push_pull (p.device.dtype x.id) in
    encode_default_key p.settings w.encoder t.key t.len >>= λ r.
    ok (ask w r.1 (zpull r.0.keys r.0.lens (in_buffer t.cpubuff t.offset) t.len cmd t))

unfoldable pub run_push_loop_once : Network → (ℕ → Bool) → ℕ → Client → Result Client
run_push_loop_once p ready now w = next_task ready now push w.node >>= λ r. elim r.0 [
  | none ↦ ok (record w { node = r.1 })
  | some t ↦ push_task p now t (record w { node = r.1 })
]

unfoldable pub run_pull_loop_once : Network → (ℕ → Bool) → ℕ → Client → Result Client
run_pull_loop_once p ready now w = next_task ready now pull w.node >>= λ r. elim r.0 [
  | none ↦ ok (record w { node = r.1 })
  | some t ↦ pull_task p t (record w { node = r.1 })
]

-- A request is done: the task leaves its stage.
unfoldable pub request_done : ℕ → KvRequest → Client → Result Client
request_done now (zpush keys lens vals len cmd t) w = finish_task now t w
request_done now (zpull keys lens vals len cmd t) w = finish_task now t w
