-- ===== src/Worker/Loops/SameKey.antt =====
-- A part's push and the pull that follows it, as ps-lite is asked for them.
use deep_inc.Base.{
  ℕ, ◌^◌, ◌<◌, ◌≡◌, ◌∙◌, refl, ap, true, false, ◌==◌, none, some, List, [], ◌∷◌, ◌++◌, Result,
  arith, ok, ◌>>=◌,
}
use deep_inc.Common.{get_command_type}
use deep_inc.Worker.Init.{default_push_pull}
use deep_inc.Worker.State.{Task, Tensor}
use deep_inc.Worker.KeyEncoder.{Encoder, Pskv, encode_default_key}
use deep_inc.Worker.KeyEncoder.Spread.{HasEntry, encode_default_key_again}
use deep_inc.Worker.Loops.{Pointer}
use deep_inc.Worker.Loops.Copies.{in_buffer}
use mathlib.Core.List.{append_assoc}
use deep_inc.Worker.Loops.Transfers.{
  Network, Client, KvRequest, zpush, zpull, ask, push_vals, push_task, pull_task,
}

-- A part that a root device of a distributed job sends as it is, with its number for ps-lite.
pub record IsSent (p : Network) (t : Task) (w : Client) (ps_key : ℕ) : Type 0 where
  pub on_root : p.is_root_device ≡ true
  pub distributed : p.is_distributed ≡ true
  pub has_buffer : (t.cpubuff == 0) ≡ false
  pub plain : p.compressed t ≡ none
  pub input : Tensor
  pub tensor : t.tensor ≡ some input
  pub result : Tensor
  pub output : t.output ≡ some result
  pub entry : HasEntry w.encoder t.key ps_key
  pub some_bytes : 0 < t.len
  pub few_bytes : t.len < 2 ^ 31

-- The requests of a part, in order.
abbrev pub part_requests : Network → Task → ℕ → Tensor → Tensor → List KvRequest
part_requests p t ps_key x y =
    zpush (ps_key ∷ []) (t.len ∷ []) (in_buffer t.cpubuff t.offset) t.len
      (get_command_type default_push_pull (p.device.dtype x.id)) t
    ∷ zpull (ps_key ∷ []) (t.len ∷ []) (in_buffer t.cpubuff t.offset) t.len
        (get_command_type default_push_pull (p.device.dtype y.id)) t
    ∷ []

push_task-asks :
    (p : Network) (now : ℕ) (t : Task) (w : Client) (ps_key : ℕ) (is : IsSent p t w ps_key)
    (kv : Pskv) (e : Encoder)
    → encode_default_key p.settings w.encoder t.key t.len ≡ ok (kv, e)
    → push_task p now t w
      ≡ ok (
          ask w e (
            zpush kv.keys kv.lens
              (in_buffer t.cpubuff t.offset)
              t.len
              (get_command_type default_push_pull (p.device.dtype is.input.id))
              t))
unfolding push_task push_vals
push_task-asks p now t w ps_key is kv e done =
    ground (arith, is.on_root, is.distributed, is.has_buffer, is.tensor, is.plain, done)

pull_task-asks :
    (p : Network) (t : Task) (w : Client) (x : Tensor) (kv : Pskv) (e : Encoder)
    → p.is_root_device ≡ true
    → (t.cpubuff == 0) ≡ false
    → t.output ≡ some x
    → encode_default_key p.settings w.encoder t.key t.len ≡ ok (kv, e)
    → pull_task p t w
      ≡ ok (
          ask w e (
            zpull kv.keys kv.lens
              (in_buffer t.cpubuff t.offset)
              t.len
              (get_command_type default_push_pull (p.device.dtype x.id))
              t))
unfolding pull_task
pull_task-asks p t w x kv e on_root has_buffer output done =
    rw (on_root, has_buffer, output, done) refl

same_requests :
    (rs : List KvRequest) (vals : Pointer) (len push_cmd pull_cmd : ℕ) (t : Task)
    {ks ls ks' ls' ms bs : List ℕ}
    → ks ≡ ms
    → ls ≡ bs
    → ks' ≡ ms
    → ls' ≡ bs
    → rs ++ zpush ks ls vals len push_cmd t ∷ zpull ks' ls' vals len pull_cmd t ∷ []
      ≡ rs ++ zpush ms bs vals len push_cmd t ∷ zpull ms bs vals len pull_cmd t ∷ []
same_requests rs vals len push_cmd pull_cmd t k l k' l' = rw (k, l, k', l') refl

-- On a root device of a distributed job, for a part that has a buffer, tensors and an entry for ps-
-- lite, is not compressed, and has at least one byte and fewer than 2 ^ 31: its push and the pull
-- after it succeed, and ask ps-lite for the same number, the entry's, with the part's length and
-- the same bytes of the buffer, each with the command of its tensor's data type; the servers' loads
-- do not change.
pub push_then_pull :
    (p : Network) (now : ℕ) (t : Task) (w : Client) (ps_key : ℕ) (is : IsSent p t w ps_key)
    → (w' : Client) × ((push_task p now t w >>= λ u. pull_task p t u) ≡ ok w')
      × (w'.requests ≡ w.requests ++ part_requests p t ps_key is.input is.result)
      × (w'.encoder.server_accumulated_len ≡ w.encoder.server_accumulated_len)
push_then_pull p now t w ps_key is =
    let (kv, e, done, keys, lens, has, load, total) =
      encode_default_key_again p.settings w.encoder t.key ps_key t.len is.entry is.some_bytes
        is.few_bytes in
    let (kv', e', done', keys', lens', has', load', total') =
      encode_default_key_again p.settings e t.key ps_key t.len has is.some_bytes is.few_bytes in
    let vals = in_buffer t.cpubuff t.offset in
    let push_cmd = get_command_type default_push_pull (p.device.dtype is.input.id) in
    let pull_cmd = get_command_type default_push_pull (p.device.dtype is.result.id) in
    let u = ask w e (zpush kv.keys kv.lens vals t.len push_cmd t) in
    (
      ask u e' (zpull kv'.keys kv'.lens vals t.len pull_cmd t),
      ap (λ (r : Result Client). r >>= λ v. pull_task p t v)
            (push_task-asks p now t w ps_key is kv e done)
          ∙ pull_task-asks p t u is.result kv' e' is.on_root is.has_buffer is.output done',
      append_assoc w.requests _ _
          ∙ same_requests w.requests vals t.len push_cmd pull_cmd t keys lens keys' lens',
      load' ∙ load,
    )
