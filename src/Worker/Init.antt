-- ===== src/Worker/Init.antt =====
-- `InitTensor` of deep_inc/common/operations.cc. What it takes from elsewhere is in `Platform`: the
-- addresses that CUDA and the shared memory give, the compressors, and the settings of the encoder.
pub mod Sent
use deep_inc.Base.{
  ℕ, zero, suc, ◌+◌, ◌-◌, ◌/◌, ◌%◌, ◌^◌, Bool, true, false, not, ◌&&◌, leb, ltb, ◌==◌,
  if◌then◌else◌, Option, none, some, List, [], ◌∷◌, ◌++◌, length, get_elem?, Result, ok, fail,
  check_failed, out_of_range, diverged, check, or_fail, ◌>>=◌, ◌>>◌,
}
use deep_inc.Common.{get_command_type, align}
use deep_inc.Worker.State.{Context}
use deep_inc.Worker.Trace.{Trace, set_profile_flag}
use deep_inc.Worker.KeyEncoder.{Settings, Encoder, Pskv, encode_default_key, as_int, as_size}
use deep_inc.Worker.Partition.{part_len, init_keys}

abbrev pub Kwargs : Type 0
Kwargs = List (List ℕ × List ℕ)

pub record Platform : Type 0 where
  pub partition_bound : ℕ
  pub min_compress_bound : ℕ
  pub is_distributed : Bool
  pub is_root_device : Bool
  pub is_cross_pcie_switch : Bool
  pub local_rank : ℕ
  pub device_pointer : ℕ → ℕ
  -- `openPcieSharedMemory` and `openSharedMemory`, of a key and a size.
  pub open_pcie_shared_memory : ℕ → ℕ → List ℕ
  pub open_shared_memory : ℕ → ℕ → ℕ
  -- `CompressorRegistry::Create`, of the settings, the aligned size and the data type.
  pub create : Kwargs → ℕ → ℕ → ℕ
  pub serialize : Kwargs → List ℕ
  pub settings : Settings

-- What a push sends: a part of the tensor's buffer, or the text of the compressor's settings.
pub data Payload : Type 0 where
  part_of : ℕ → ℕ → Payload
  text : List ℕ → Payload

-- A push to a server, which the caller waits for.
pub record Push : Type 0 where
  pub kv : Pskv
  pub vals : Payload
  pub cmd : ℕ

-- The worker's state that the function changes: `context` is the tensor's, `pushes` oldest first.
pub record Init : Type 0 where
  pub context : Context
  pub encoder : Encoder
  pub trace : Trace
  pub pushes : List Push

abbrev back : List ℕ → Result ℕ
back [] = fail out_of_range
back (x ∷ []) = ok x
back (x ∷ y ∷ ys) = back (y ∷ ys)

-- A tensor that is on the CPU is registered with CUDA; `none` is the null pointer.
unfoldable pub register_cpubuff : Platform → Option ℕ → Context → Context
register_cpubuff p none c = c
register_cpubuff p (some b) c = record c { gpu_ptr = p.device_pointer b }

unfoldable pub open_buffer : Platform → ℕ → ℕ → Context → Result Context
open_buffer p key size c =
    if p.is_cross_pcie_switch
    then (back (p.open_pcie_shared_memory key size) >>= λ b.
        ok (record c { pcie_cpubuff = p.open_pcie_shared_memory key size; cpubuff = b }))
    else ok (record c { cpubuff = p.open_shared_memory key size })

-- `GetCommandType(RequestType::kDefaultPushPull, dtype)` and `…::kCompressedPushPull`.
abbrev pub default_push_pull : ℕ
default_push_pull = 0

abbrev pub compressed_push_pull : ℕ
compressed_push_pull = 2

unfoldable pub add_compressor : Platform → ℕ → ℕ → Context → Result Context
add_compressor p dtype len c = elim c.kwargs [
  | [] ↦ ok c
  | _ ∷ _ ↦ do
    size ← align len dtype
    ok (record c { compressor_list = c.compressor_list ++ p.create c.kwargs size dtype ∷ [] })
]

-- The initial push of one partition, in a distributed job by the root device.
unfoldable pub push_part : Platform → ℕ → ℕ → ℕ → ℕ → Init → Result Init
push_part p dtype key accumulated len s =
    if p.is_distributed && p.is_root_device
    then (do
      r ← encode_default_key p.settings s.encoder key len
      let push : Push = record {
        kv = r.0;
        vals = part_of accumulated len;
        cmd = get_command_type default_push_pull dtype;
      }
      c ← add_compressor p dtype len s.context
      ok (record s { context = c; encoder = r.1; pushes = s.pushes ++ push ∷ [] }))
    else ok s

-- The loop over the partitions. `len` is an `int`.
unfoldable pub push_parts : Platform → ℕ → ℕ → ℕ → List ℕ → ℕ → Init → Result Init
push_parts p dtype size zero keys accumulated s = fail diverged
push_parts p dtype size (suc fuel) keys accumulated s =
    let len = as_size (as_int (part_len size p.partition_bound accumulated)) in
    let rest = push_parts p dtype size fuel in
    if ltb accumulated size
    then elim keys [
      | [] ↦ fail out_of_range
      | key ∷ ks ↦ push_part p dtype key accumulated len s >>= rest ks (accumulated + len)
    ]
    else (check (accumulated == size) >> elim keys [ [] ↦ ok s | k ∷ ks ↦ fail check_failed ])

-- The settings of the compressor go to the server of every key.
unfoldable pub send_kwargs : Platform → ℕ → List ℕ → List ℕ → Init → Result Init
send_kwargs p dtype content [] s = ok s
send_kwargs p dtype content (key ∷ keys) s = do
  r ← encode_default_key p.settings s.encoder key (length content)
  let push : Push = record {
    kv = r.0;
    vals = text content;
    cmd = get_command_type compressed_push_pull dtype;
  }
  send_kwargs p dtype content keys (record s { encoder = r.1; pushes = s.pushes ++ push ∷ [] })

unfoldable pub register : Platform → ℕ → Init → Result Init
register p dtype s = elim s.context.kwargs [
  | [] ↦ ok s
  | _ ∷ _ ↦
      if p.is_distributed && p.is_root_device
      then send_kwargs p dtype (p.serialize s.context.kwargs) s.context.key_list s
      else ok s
]

-- A small tensor is not compressed.
unfoldable pub drop_kwargs : Platform → ℕ → Context → Context
drop_kwargs p size c = if ltb size p.min_compress_bound then record c { kwargs = [] } else c

-- The loops and what follows, for the context with its buffers.
unfoldable pub init_servers : Platform → ℕ → ℕ → Init → Result Init
init_servers p size dtype s = do
  u ← push_parts p dtype size (suc size) s.context.key_list 0 s
  v ← register p dtype u
  ok (record v { context = record (v.context) { initialized = true } })

-- The keys are added to the list of the context, which is empty before the first call.
unfoldable pub init_context : Platform → ℕ → ℕ → Option ℕ → Init → Result Init
init_context p size dtype cpubuff s = do
  check (ltb 0 size)
  r ← set_profile_flag s.trace (record (s.context) { buff_len = size })
  keys ← init_keys p.partition_bound size r.1.declared_key
  let all = r.1.key_list ++ keys
  let c = record (r.1) { local_rank = p.local_rank; key_list = all }
  check (length all == (size + p.partition_bound - 1) / p.partition_bound)
  first ← or_fail (get_elem? all 0) check_failed
  aligned ← align size dtype
  c' ← open_buffer p first aligned (register_cpubuff p cpubuff c)
  ok (record s { context = drop_kwargs p size c'; trace = r.0 })

unfoldable pub init_tensor : Platform → ℕ → ℕ → Option ℕ → Init → Result Init
init_tensor p size dtype cpubuff s =
    let made = init_context p size dtype cpubuff s >>= init_servers p size dtype in
    if s.context.initialized then ok s else made
