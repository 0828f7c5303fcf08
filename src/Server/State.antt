-- ===== src/Server/State.antt =====
-- The structures of deep_inc/server/server.h and msg.h. Memory is a list of bytes. What the server
-- takes from elsewhere is `Deps`: the compressors, the reducer's sum, the number of workers and the
-- range of keys that ps-lite gives to this server.
use deep_inc.Base.{
  ℕ, ◌+◌, ◌-◌, ◌%◌, ◌^◌, Bool, Option, none, some, List, [], ◌++◌, length, take, drop, leb, ◌&&◌,
  if◌then◌else◌, Result, ok, fail, out_of_range,
}
use deep_inc.Common.{DataHandleType}

-- `ps::KVMeta`, the fields that the server reads.
pub record Meta : Type 0 where
  pub cmd : ℕ
  pub push : Bool
  pub sender : ℕ

-- `ps::KVPairs<char>`.
pub record Pairs : Type 0 where
  pub keys : List ℕ
  pub vals : List ℕ
  pub lens : List ℕ

-- Where a `char*` of the server points: into the buffer of a key's store, into the data of a request,
-- or into the buffer of a key's compressor.
pub data Ptr : Type 0 where
  store_of : ℕ → Ptr
  received : List ℕ → Ptr
  compressed_of : ℕ → Ptr

pub data EngineOperation : Type 0 where
  sum_recv copy_first all_recv terminate : EngineOperation

-- `BytePSEngineMessage`. The code makes no other destination than the buffer of a key's store, which
-- is named by its key. A null pointer is `none`.
pub record Message : Type 0 where
  pub id : ℕ
  pub type : DataHandleType
  pub key : ℕ
  pub dst : Option ℕ
  pub src : Option Ptr
  pub len : ℕ
  pub ops : EngineOperation
  pub sarray : Pairs
  pub req_meta : Option Meta

-- `BytePSArray` as an entry of `store_`, which owns its buffer.
pub record Stored : Type 0 where
  pub tensor : Option (List ℕ)
  pub len : ℕ
  pub dtype : ℕ

-- `BytePSArray` as the merged array of an update buffer, which points elsewhere.
pub record Merged : Type 0 where
  pub tensor : Option Ptr
  pub len : ℕ
  pub dtype : ℕ
  pub tmp_sarray : Option Pairs

pub record UpdateBuf : Type 0 where
  pub request : List Meta
  pub merged : Merged

-- What the vectors `is_push_finished_`, `pull_cnt_`, `seen_sender_` and `q_pull_reqmeta_` hold for
-- one thread and one key. `is_push_finished` is `none` while the map has no entry.
pub record Flags : Type 0 where
  pub is_push_finished : Option Bool
  pub pull_cnt : ℕ
  pub seen_sender : List ℕ
  pub q_pull_reqmeta : List Meta

abbrev pub no_flags : Flags
no_flags = record { is_push_finished = none; pull_cnt = 0; seen_sender = []; q_pull_reqmeta = [] }

-- `PriorityQueue`. A missing counter reads as 0.
pub record PriorityQueue : Type 0 where
  pub queue : List Message
  pub push_cnt : ℕ → ℕ
  pub enable_schedule : Bool

-- An answer that left the server, with the request that it answers.
pub record Response : Type 0 where
  pub to : Meta
  pub pairs : Pairs

pub record Deps : Type 1 where
  pub Compressor : Type 0
  -- `CompressorRegistry::Create` of the deserialized text, the aligned size and the data type.
  pub create : List ℕ → ℕ → ℕ → Option Compressor
  pub compress : Compressor → List ℕ → List ℕ × Compressor
  pub decompress : Compressor → List ℕ → List ℕ × Compressor
  -- `CpuReducer::sum(dst, src, len, dtype)`: the new contents of the destination.
  pub sum : ℕ → List ℕ → List ℕ → ℕ → Result (List ℕ)
  pub num_workers : ℕ
  -- `sysconf(_SC_PAGESIZE)`, and whether `posix_memalign` gives so many bytes at a page's boundary.
  pub page_size : ℕ
  pub posix_memalign : ℕ → Bool
  -- The first key of this server's range.
  pub key_begin : ℕ

-- `sync_mode_` and `engine_thread_num_`. `is_engine_blocking_` is false from the start and nothing sets
-- it, so the branches under it are left out.
pub record Config : Type 0 where
  pub sync_mode : Bool
  pub engine_thread_num : ℕ

-- The globals of the server. `flags` is the five vectors that are indexed by an engine thread, and
-- `outbox` the answers, oldest first.
pub record Server (C : Type 0) : Type 0 where
  pub config : Config
  pub store : ℕ → Stored
  pub update_buf : ℕ → UpdateBuf
  pub push_response_map : ℕ → Bool
  pub pull_response_map : ℕ → Option Pairs
  pub compressor_map : ℕ → Option C
  pub compressor_buf : ℕ → List ℕ
  pub hash_cache : ℕ → Option ℕ
  pub acc_load : List ℕ
  pub engine_queues : List PriorityQueue
  pub flags : List (ℕ → Flags)
  pub timestamp : ℕ
  pub outbox : List Response

abbrev pub no_pairs : Pairs
no_pairs = record { keys = []; vals = []; lens = [] }

-- `DecodeKey` and `EncodeKey` on `uint64_t`.
unfoldable pub decode_key : Deps → ℕ → ℕ
decode_key d key = (key + 2 ^ 64 - d.key_begin % 2 ^ 64) % 2 ^ 64

unfoldable pub encode_key : Deps → ℕ → ℕ
encode_key d key = (key + d.key_begin) % 2 ^ 64

-- `memcpy` of `len` bytes: outside either buffer it is undefined.
unfoldable pub copy : List ℕ → List ℕ → ℕ → Result (List ℕ)
copy dst src len =
    if leb len (length dst) && leb len (length src)
    then ok (take len src ++ drop len dst)
    else fail out_of_range

-- The bytes that a pointer leads to.
unfoldable pub deref : {C : Type 0} → Server C → Ptr → List ℕ
deref s (received bytes) = bytes
deref s (compressed_of key) = s.compressor_buf key
deref s (store_of key) = elim (s.store key).tensor [ none ↦ [] | some bytes ↦ bytes ]
