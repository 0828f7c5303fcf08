-- ===== src/Examples/Parts.antt =====
-- A tensor of ten bytes in parts of four, and its keys on their way to two servers.
use deep_inc.Base.{
  ℕ, ◌+◌, ◌*◌, ◌%◌, ◌≤◌, ◌<◌, ◌≡◌, inl, refl, true, false, some, List, [], ◌∷◌, length, get_elem?,
  contains, update, ok, arith,
}
use deep_inc.Common.{
  QueueType, get_data_type_length, align, get_command_type, depair_data_handle_type,
}
use deep_inc.Common.Alignment.{align_bounds}
use deep_inc.Common.Command.{depair-get_command_type}
use deep_inc.Server.State.{Deps, decode_key}
use deep_inc.Worker.State.{Task}
use deep_inc.Worker.Partition.{
  part_len, partition_tensor, entry_size, keys_from, start_key, init_keys,
}
use deep_inc.Worker.Partition.Tiles.{Tiles, div_up, partition_tensor-Tiles}
use deep_inc.Worker.Partition.Keys.{Consecutive, init_keys-Consecutive, keys_apart, keys_collide}
use deep_inc.Worker.Stages.Chain.{chain, is_ascending, all_served, chain-is_ascending}
use deep_inc.Worker.KeyEncoder.{
  Settings, Encoder, Pskv, Range, naive, hash_naive, pick_server, assign_key, encode_default_key,
  no_pskv,
}
use deep_inc.Worker.KeyEncoder.Spread.{HasEntry, decode_key-encode_default_key}
use deep_inc.Examples.Queue.{task, root}
use deep_inc.Base.{pos}

aligned : align 10 0 ≡ ok 128
unfolding align get_data_type_length
aligned = refl

float_length : get_data_type_length 0 ≡ ok 4
unfolding get_data_type_length
float_length = refl

align_bounds_example : (128 % (4 * 4 * 8) ≡ 0) × (10 ≤ 128) × (128 < 10 + 4 * 4 * 8)
align_bounds_example = align_bounds 10 0 4 128 (omega arith) float_length aligned

depair-get_command_type_example :
    depair_data_handle_type (get_command_type 2 1) ≡ ok (record { request_type = 2; dtype = 1 })
depair-get_command_type_example = depair-get_command_type 2 1 (omega arith)

abbrev entry : Task
entry = record (task 0 (pos 0) 0) { tensor = some (record { id = 1; size = 10 }) }

entry_size_is : entry_size entry ≡ ok 10
unfolding entry_size
entry_size_is = refl

partition_tensor-Tiles_example :
    (ps : List Task) × (partition_tensor 4 [] entry ≡ ok ps)
    × Tiles 4 0 10 ps
    × (length ps ≡ div_up 10 4)
partition_tensor-Tiles_example =
    partition_tensor-Tiles 4 10 [] entry (omega arith) (omega arith) (omega arith) refl
      entry_size_is (inl refl)

init_keys-Consecutive_example :
    (ks : List ℕ) × (init_keys 4 10 3 ≡ ok ks)
    × Consecutive (3 * 65536) ks
    × (length ks ≡ div_up 10 4)
init_keys-Consecutive_example =
    init_keys-Consecutive 4 10 3 (omega arith) (omega arith) (omega arith) (omega arith)

keys_of_3 : init_keys 4 10 3 ≡ ok (196608 ∷ 196609 ∷ 196610 ∷ [])
unfolding init_keys keys_from part_len start_key
keys_of_3 = refl

keys_of_4 : init_keys 4 6 4 ≡ ok (262144 ∷ 262145 ∷ [])
unfolding init_keys keys_from part_len start_key
keys_of_4 = refl

key_found : contains (196608 ∷ 196609 ∷ 196610 ∷ []) 196609 ≡ true
unfolding contains
key_found = refl

keys_apart_example : contains (262144 ∷ 262145 ∷ []) 196609 ≡ false
keys_apart_example =
    keys_apart 4 10 6 3 4 196609 (196608 ∷ 196609 ∷ 196610 ∷ []) (262144 ∷ 262145 ∷ [])
      (omega arith) (omega arith) (omega arith) (omega arith) (omega arith) (omega arith)
      (omega arith) (omega arith) (omega arith) keys_of_3 keys_of_4 key_found

keys_collide_example :
    (ks : List ℕ) × (init_keys 1 65537 3 ≡ ok ks) × (contains ks (start_key (3 + 1)) ≡ true)
keys_collide_example =
    keys_collide 1 65537 3 (omega arith) (omega arith) (omega arith) (omega arith) (omega arith)

chain-is_ascending_example :
    (qs : List QueueType) × (chain root (1 ∷ []) ≡ ok qs)
    × (is_ascending qs ≡ true)
    × (all_served root qs ≡ true)
chain-is_ascending_example = chain-is_ascending root (1 ∷ []) (inl refl)

-- Two servers, each with half of a space of 2 ^ 20 keys.
abbrev pub settings : Settings
settings = record {
  server_key_ranges =
      record { begin = 0; end = 1048576 } ∷ record { begin = 1048576; end = 2097152 } ∷ [];
  num_worker = 2;
  built_in_hash_fn = length;
  built_in_hash_coefficient = 1;
  hash_knob = naive;
  mixed_mode = false;
  mixed_mode_bound = 101;
}

abbrev pub blank : Encoder
blank = record {
  ps_kv = λ _. no_pskv;
  server_accumulated_len = 0 ∷ 0 ∷ [];
  total_accumulated_len = 0;
}

abbrev first_kv : Pskv
first_kv = record { keys = 1048577 ∷ []; lens = 4 ∷ []; size = 4 }

abbrev pub encoded : Encoder
encoded = record {
  ps_kv = update (λ _. no_pskv) 1 first_kv;
  server_accumulated_len = 0 ∷ 4 ∷ [];
  total_accumulated_len = 4;
}

encodes : encode_default_key settings blank 1 4 ≡ ok (first_kv, encoded)
unfolding encode_default_key assign_key pick_server hash_naive
encodes = refl

abbrev deps : Deps
deps = record {
  Compressor = ℕ;
  create = λ _ _ _. some 0;
  compress = λ c x. (x, c);
  decompress = λ c x. (x, c);
  sum = λ dtype a b n. ok a;
  num_workers = 2;
  page_size = 4096;
  posix_memalign = λ n. true;
  key_begin = 0;
}

decode_key-encode_default_key_example :
    (server : ℕ) × (range : Range) × (ps_key : ℕ) × (get_elem? settings.server_key_ranges server
      ≡ some range)
    × HasEntry encoded 1 ps_key
    × (ps_key < range.end)
    × (decode_key (record deps { key_begin = range.begin }) ps_key ≡ 1)
decode_key-encode_default_key_example =
    decode_key-encode_default_key settings blank encoded 1 4 first_kv deps refl (omega arith)
      encodes
