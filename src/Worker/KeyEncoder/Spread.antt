-- ===== src/Worker/KeyEncoder/Spread.antt =====
-- Where a key goes, that it stays there, and what the loads count.
use deep_inc.Base.{
  ℕ, zero, suc, ◌+◌, ◌^◌, ◌%◌, ◌<◌, ◌≡◌, refl, ap, ◌∙◌, inl, inr, not, ◌&&◌, ltb, ◌==◌, some, List,
  [], ◌∷◌, get_elem?, set, sum, update, update_self, Bool-cases, Option-cases, Result-cases, ok,
  arith,
}
use deep_inc.Server.State.{Deps, decode_key}
use deep_inc.Worker.KeyEncoder.{
  Settings, Encoder, Pskv, Range, pick_server, as_size, set_len, assign_key, encode_default_key,
}

-- A key with an entry: one number for ps-lite, one length.
pub record HasEntry (e : Encoder) (key ps_key : ℕ) : Type 0 where
  pub keys : (e.ps_kv key).keys ≡ ps_key ∷ []
  pub len : ℕ
  pub lens : (e.ps_kv key).lens ≡ len ∷ []
  pub size : (e.ps_kv key).size ≡ len

-- The outcome of a first entry: the server, and the loads with the length added.
pub record IsAssigned (c : Settings) (e : Encoder) (key len : ℕ) (e' : Encoder) : Type 0 where
  pub server : ℕ
  pub range : Range
  pub in_range : get_elem? c.server_key_ranges server ≡ some range
  pub entry : HasEntry e' key ((range.begin + key) % 2 ^ 64)
  pub below : (range.begin + key) % 2 ^ 64 < range.end
  pub load : ℕ
  pub old_load : get_elem? e.server_accumulated_len server ≡ some load
  pub loads :
      e'.server_accumulated_len ≡ set e.server_accumulated_len server ((load + len) % 2 ^ 64)
  pub total : e'.total_accumulated_len ≡ (e.total_accumulated_len + len) % 2 ^ 64

assign_key_lem :
    (c : Settings) (e e' : Encoder) (key len : ℕ) (kv : Pskv)
    → assign_key c e key len ≡ ok (kv, e')
    → IsAssigned c e key len e'
unfolding assign_key
assign_key_lem c e e' key len kv run = elim (Result-cases (pick_server c key)) [
  | inr (x, failed) ↦ ground (arith, run, failed)
  | inl (server, picked) ↦ elim (Option-cases (get_elem? e.server_accumulated_len server)) [
    | inl missing ↦ ground (arith, run, picked, missing)
    | inr (load, old) ↦ elim (Option-cases (get_elem? c.server_key_ranges server)) [
      | inl missing ↦ ground (arith, run, picked, old, missing)
      | inr (range, there) ↦ record {
        server = server;
        range = range;
        in_range = there;
        entry = record {
          keys = ground (arith, run, picked, old, there);
          len = len % 2 ^ 32;
          lens = ground (arith, run, picked, old, there);
          size = ground (arith, run, picked, old, there);
        };
        below = ground (arith, run, picked, old, there);
        load = load;
        old_load = old;
        loads = ground (arith, run, picked, old, there);
        total = ground (arith, run, picked, old, there);
      }
    ]
  ]
]

encode_default_key-IsAssigned :
    (c : Settings) (e e' : Encoder) (key len : ℕ) (kv : Pskv)
    → (e.ps_kv key).keys ≡ []
    → encode_default_key c e key len ≡ ok (kv, e')
    → IsAssigned c e key len e'
unfolding encode_default_key
encode_default_key-IsAssigned c e e' key len kv fresh run =
    assign_key_lem c e e' key len kv (ground (arith, run, fresh))

set_len_lem :
    (kv : Pskv) (n len : ℕ)
    → kv.lens ≡ n ∷ []
    → kv.size ≡ n
    → (kv' : Pskv) × (n' : ℕ) × (set_len kv len ≡ ok kv')
      × (kv'.keys ≡ kv.keys)
      × (kv'.lens ≡ n' ∷ [])
      × (kv'.size ≡ n')
      × (0 < len → len < 2 ^ 31 → n' ≡ len)
unfolding set_len
set_len_lem kv n len lens size = elim (Bool-cases (ltb 0 len && not (as_size kv.size == len))) [
  | inl change ↦ (
    record kv { size = len % 2 ^ 32; lens = len % 2 ^ 32 ∷ [] },
    len % 2 ^ 32,
    ground (arith, change, lens),
    refl,
    refl,
    refl,
    λ pos small. omega arith,
  )
  | inr same ↦
      (kv, n, ground (arith, same), refl, lens, size, λ pos small. ground (arith, same, size))
]

-- A key with an entry of one number and one length can be encoded again with any positive length
-- below 2 ^ 31: the number for ps-lite stays, the length becomes the new one, the key still has
-- such an entry, and no load is counted.
pub encode_default_key_again :
    (c : Settings) (e : Encoder) (key ps_key len : ℕ)
    → HasEntry e key ps_key
    → 0 < len
    → len < 2 ^ 31
    → (kv : Pskv) × (e' : Encoder) × (encode_default_key c e key len ≡ ok (kv, e'))
      × (kv.keys ≡ ps_key ∷ [])
      × (kv.lens ≡ len ∷ [])
      × HasEntry e' key ps_key
      × (e'.server_accumulated_len ≡ e.server_accumulated_len)
      × (e'.total_accumulated_len ≡ e.total_accumulated_len)
unfolding encode_default_key
encode_default_key_again c e key ps_key len has pos small =
    let (kv, n, done, keys, lens, size, exact) =
      set_len_lem (e.ps_kv key) has.len len has.lens has.size in
    (
      kv,
      record e { ps_kv = update e.ps_kv key kv },
      ground (arith, has.keys, done),
      keys ∙ has.keys,
      lens ∙ ap (λ x. x ∷ []) (exact pos small),
      record {
        keys = ap (λ (x : Pskv). x.keys) (update_self e.ps_kv key kv) ∙ keys ∙ has.keys;
        len = n;
        lens = ap (λ (x : Pskv). x.lens) (update_self e.ps_kv key kv) ∙ lens;
        size = ap (λ (x : Pskv). x.size) (update_self e.ps_kv key kv) ∙ size;
      },
      refl,
      refl,
    )

decode_key-entry :
    (begin key : ℕ) (d : Deps)
    → key < 2 ^ 64
    → decode_key (record d { key_begin = begin }) ((begin + key) % 2 ^ 64) ≡ key
unfolding decode_key
decode_key-entry begin key d small = omega arith

sum-set : (xs : List ℕ) (i x v : ℕ) → get_elem? xs i ≡ some x → sum (set xs i v) + x ≡ sum xs + v
sum-set [] i x v e = cc
sum-set (y ∷ xs) zero x v e = ground (arith, e)
sum-set (y ∷ xs) (suc i) x v e = omega (arith, sum-set xs i x v e)

sum-IsAssigned :
    (c : Settings) (e e' : Encoder) (key len : ℕ)
    → IsAssigned c e key len e'
    → sum e.server_accumulated_len % 2 ^ 64 ≡ e.total_accumulated_len
    → sum e'.server_accumulated_len % 2 ^ 64 ≡ e'.total_accumulated_len
sum-IsAssigned c e e' key len a before = omega (
  arith,
  sum-set e.server_accumulated_len a.server a.load ((a.load + len) % 2 ^ 64) a.old_load,
  ap sum a.loads,
  a.total,
)

-- When a key below 2 ^ 64 without an entry is encoded, it gets one number for ps-lite, which is
-- below the end of the range of one of the servers; and a server with the beginning of that range
-- decodes the number to the key.
pub decode_key-encode_default_key :
    (c : Settings) (e e' : Encoder) (key len : ℕ) (kv : Pskv) (d : Deps)
    → (e.ps_kv key).keys ≡ []
    → key < 2 ^ 64
    → encode_default_key c e key len ≡ ok (kv, e')
    → (server : ℕ) × (range : Range) × (ps_key : ℕ) × (get_elem? c.server_key_ranges server
        ≡ some range)
      × HasEntry e' key ps_key
      × (ps_key < range.end)
      × (decode_key (record d { key_begin = range.begin }) ps_key ≡ key)
decode_key-encode_default_key c e e' key len kv d fresh small run =
    let a = encode_default_key-IsAssigned c e e' key len kv fresh run in
    (
      a.server,
      a.range,
      (a.range.begin + key) % 2 ^ 64,
      a.in_range,
      a.entry,
      a.below,
      decode_key-entry a.range.begin key d small,
    )

-- When a key without an entry is encoded and the total was the sum of the servers' loads modulo 2 ^
-- 64, it still is, and it has grown by the length modulo 2 ^ 64.
pub sum-encode_default_key :
    (c : Settings) (e e' : Encoder) (key len : ℕ) (kv : Pskv)
    → (e.ps_kv key).keys ≡ []
    → encode_default_key c e key len ≡ ok (kv, e')
    → sum e.server_accumulated_len % 2 ^ 64 ≡ e.total_accumulated_len
    → (sum e'.server_accumulated_len % 2 ^ 64 ≡ e'.total_accumulated_len)
      × (e'.total_accumulated_len ≡ (e.total_accumulated_len + len) % 2 ^ 64)
sum-encode_default_key c e e' key len kv fresh run before =
    let a = encode_default_key-IsAssigned c e e' key len kv fresh run in
    (sum-IsAssigned c e e' key len a before, a.total)
