-- ===== src/Worker/KeyEncoder.antt =====
-- How a worker spreads its keys over the servers: the hash functions and `EncodeDefaultKey` of
-- deep_inc/common/global.cc. The functions run on characters of a string that is gone by then; the
-- model reads what the string held.
pub mod Spread
use deep_inc.Base.{
  ℕ, ◌+◌, ◌-◌, ◌*◌, ◌/◌, ◌%◌, ◌^◌, Bool, true, false, not, ◌&&◌, ltb, leb, ◌==◌, if◌then◌else◌,
  Option, none, some, List, [], ◌∷◌, length, get_elem?, set, update, to_string, Result, ok, fail,
  check_failed, out_of_range, check, or_fail, ◌>>=◌, ◌>>◌,
}

-- The values of `_hash_knob` that the code knows.
pub data HashKnob : Type 0 where
  naive built_in djb2 sdbm mixed unsupported : HashKnob

-- `ps::Range`.
pub record Range : Type 0 where
  pub begin : ℕ
  pub end : ℕ

-- `PSKV`. An `int` is kept as its 32 bits. The default entry of the map has no keys.
pub record Pskv : Type 0 where
  pub keys : List ℕ
  pub lens : List ℕ
  pub size : ℕ

abbrev pub no_pskv : Pskv
no_pskv = record { keys = []; lens = []; size = 0 }

-- What the encoder reads: the key ranges and the number of workers of ps-lite, `std::hash`, and the
-- settings. `mixed_mode_bound` is `BYTEPS_MIXED_MODE_BOUND`, 101 if it is not set.
pub record Settings : Type 0 where
  pub server_key_ranges : List Range
  pub num_worker : ℕ
  pub built_in_hash_fn : List ℕ → ℕ
  pub built_in_hash_coefficient : ℕ
  pub hash_knob : HashKnob
  pub mixed_mode : Bool
  pub mixed_mode_bound : ℕ

pub record Encoder : Type 0 where
  pub ps_kv : ℕ → Pskv
  pub server_accumulated_len : List ℕ
  pub total_accumulated_len : ℕ

unfoldable pub hash_naive : ℕ → ℕ
hash_naive key = (key / 2 ^ 16 + key % 65536) * 9973 % 2 ^ 64

unfoldable pub hash_built_in : Settings → ℕ → ℕ
hash_built_in c key = c.built_in_hash_fn (to_string key) * c.built_in_hash_coefficient % 2 ^ 64

unfoldable pub djb2_from : ℕ → List ℕ → ℕ
djb2_from hash [] = hash
djb2_from hash (c ∷ cs) = djb2_from ((hash * 2 ^ 5 + hash + c) % 2 ^ 64) cs

unfoldable pub hash_djb2 : ℕ → ℕ
unfolding djb2_from
hash_djb2 key = djb2_from 5381 (to_string key)

-- `hash` is below 2 ^ 64, and the difference is taken modulo that.
unfoldable pub sdbm_from : ℕ → List ℕ → ℕ
sdbm_from hash [] = hash
sdbm_from hash (c ∷ cs) =
    sdbm_from ((c + hash * 2 ^ 6 + hash * 2 ^ 16 + (2 ^ 64 - hash)) % 2 ^ 64) cs

unfoldable pub hash_sdbm : ℕ → ℕ
unfolding sdbm_from
hash_sdbm key = sdbm_from 0 (to_string key)

-- The ratio is a `double` in the code and a fraction here, `top / bottom`; where the code divides by
-- 0, one of its checks fails. The servers that share no machine are counted on `size_t`.
unfoldable pub hash_mixed_mode : Settings → ℕ → Result ℕ
hash_mixed_mode c key = do
  let servers = length c.server_key_ranges
  let noncolocate = (servers + 2 ^ 64 - c.num_worker) % 2 ^ 64
  check (leb servers c.mixed_mode_bound)
  let top = 2 * noncolocate * (c.num_worker - 1)
  let bottom =
      (c.num_worker * (c.num_worker + noncolocate) % 2 ^ 64 + 2 ^ 64 - 2 * noncolocate % 2 ^ 64)
      % 2 ^ 64
  check (ltb 0 bottom)
  check (leb top bottom)
  let hash_res = hash_djb2 key % c.mixed_mode_bound
  (if ltb (hash_res * bottom) (top * c.mixed_mode_bound)
      then ok (hash_djb2 hash_res % noncolocate)
      else ok ((noncolocate + hash_djb2 hash_res % c.num_worker) % 2 ^ 64))

-- The server that a new key goes to.
unfoldable pub pick_server : Settings → ℕ → Result ℕ
pick_server c key =
    let n = length c.server_key_ranges in
    elim c.hash_knob [
      | naive ↦ ok (hash_naive key % n)
      | built_in ↦ ok (hash_built_in c key % n)
      | djb2 ↦ ok (hash_djb2 key % n)
      | sdbm ↦ ok (hash_sdbm key % n)
      | mixed ↦ do
        check c.mixed_mode
        server ← hash_mixed_mode c key
        check (ltb server n)
        ok server
      | unsupported ↦ fail check_failed
    ]

abbrev pub as_int : ℕ → ℕ
as_int n = n % 2 ^ 32

-- An `int` where `size_t` is asked for.
abbrev pub as_size : ℕ → ℕ
as_size n = if ltb n (2 ^ 31) then n else n + (2 ^ 64 - 2 ^ 32)

-- A key that has its entry: only the length may change.
unfoldable pub set_len : Pskv → ℕ → Result Pskv
set_len kv len =
    if ltb 0 len && not (as_size kv.size == len)
    then (do
      old ← or_fail (get_elem? kv.lens 0) out_of_range
      ok (record kv { size = as_int len; lens = set kv.lens 0 (as_int len) }))
    else ok kv

-- A key's first entry.
unfoldable pub assign_key : Settings → Encoder → ℕ → ℕ → Result (Pskv × Encoder)
assign_key c e key len = do
  check (ltb 0 (length c.server_key_ranges))
  server ← pick_server c key
  load ← or_fail (get_elem? e.server_accumulated_len server) out_of_range
  range ← or_fail (get_elem? c.server_key_ranges server) out_of_range
  let ps_key = (range.begin + key) % 2 ^ 64
  check (ltb ps_key range.end)
  let kv : Pskv = record { keys = ps_key ∷ []; lens = as_int len ∷ []; size = as_int len }
  ok (
    kv,
    record {
      ps_kv = update e.ps_kv key kv;
      server_accumulated_len = set e.server_accumulated_len server ((load + len) % 2 ^ 64);
      total_accumulated_len = (e.total_accumulated_len + len) % 2 ^ 64;
    },
  )

unfoldable pub encode_default_key : Settings → Encoder → ℕ → ℕ → Result (Pskv × Encoder)
encode_default_key c e key len = elim (e.ps_kv key).keys [
  | [] ↦ assign_key c e key len
  | k ∷ ks ↦ do kv ← set_len (e.ps_kv key) len; ok (kv, record e { ps_kv = update e.ps_kv key kv })
]
