-- ===== src/Examples/Rounds.antt =====
-- Two workers, one engine thread, and a key of four bytes.
use deep_inc.Base.{
  ℕ, ◌+◌, ◌%◌, ◌≡◌, inl, refl, true, false, Option, none, some, List, [], ◌∷◌, ◌++◌, length, take,
  contains, update, ok, arith, if◌then◌else◌, ◌==◌,
}
use deep_inc.Common.{DataHandleType, get_command_type, align, get_data_type_length}
use deep_inc.Common.Command.{depair-get_command_type}
use deep_inc.Server.State.{
  Message, all_recv, no_pairs, Deps, Server, Meta, Pairs, Ptr, store_of, Merged, Flags, no_flags,
  PriorityQueue, decode_key, deref,
}
use deep_inc.Server.Queue.{create, push, wait_and_pop, compare_priority}
use deep_inc.Server.Start.{Environment, start_server, start_server-out_of_range}
use deep_inc.Base.{fail, out_of_range}
use deep_inc.Server.Load.{Loads, min_index_from, get_thread_id}
use deep_inc.Server.Load.Balance.{IsGiven, get_thread_ids, get_thread_id_again, get_thread_id_least}
use deep_inc.Server.Engine.{serve_pulls, finish_push}
use deep_inc.Server.Handler.{sync_pull, handle}
use deep_inc.Server.Rounds.Pushes.{handle_all, IsPush}
use deep_inc.Server.Rounds.Pulls.{Publishes, Answers}
use deep_inc.Base.{Bool}
use deep_inc.Server.Rounds.Served.{AreFresh, reopened, serve_pulls-AreFresh, serve_pulls_all}
use deep_inc.Server.Rounds.Initial.{IsInitial, Begun}
use deep_inc.Server.Rounds.Barrier.{metas, initial_round}

abbrev add_bytes : List ℕ → List ℕ → List ℕ
add_bytes [] bs = []
add_bytes (a ∷ rest) [] = a ∷ rest
add_bytes (a ∷ rest) (b ∷ bs) = (a + b) % 256 ∷ add_bytes rest bs

abbrev deps : Deps
deps = record {
  Compressor = ℕ;
  create = λ _ _ _. some 0;
  compress = λ c x. (x, c);
  decompress = λ c x. (x, c);
  sum = λ dtype dst src len. ok (add_bytes dst (take len src));
  num_workers = 2;
  page_size = 4096;
  posix_memalign = λ n. true;
  key_begin = 0;
}

abbrev float : DataHandleType
float = record { request_type = 0; dtype = 0 }

abbrev push_of : ℕ → List ℕ → Meta × Pairs
push_of sender vals = (
  record { cmd = get_command_type 0 0; push = true; sender = sender },
  record { keys = 1 ∷ []; vals = vals; lens = length vals ∷ [] },
)

abbrev pull_of : ℕ → Meta × Pairs
pull_of sender = (
  record { cmd = get_command_type 0 0; push = false; sender = sender },
  record { keys = 1 ∷ []; vals = []; lens = [] },
)

abbrev no_merged : Merged
no_merged = record { tensor = none; len = 4; dtype = 0; tmp_sarray = none }

-- A server with this array for every key, published or not, and these flags.
abbrev server : Option (List ℕ) → Option Ptr → Flags → Server ℕ
server bytes ptr f = record {
  config = record { sync_mode = true; engine_thread_num = 1 };
  store = λ _. record { tensor = bytes; len = 4; dtype = 0 };
  update_buf = λ _. record { request = []; merged = record no_merged { tensor = ptr } };
  push_response_map = λ _. false;
  pull_response_map = λ _. none;
  compressor_map = λ _. none;
  compressor_buf = λ _. [];
  hash_cache = λ _. some 0;
  acc_load = 4 ∷ [];
  engine_queues = record { queue = []; push_cnt = λ _. 0; enable_schedule = false } ∷ [];
  flags = (λ _. f) ∷ [];
  timestamp = 0;
  outbox = [];
}

abbrev fifo : PriorityQueue
fifo = record { queue = []; push_cnt = λ _. 0; enable_schedule = false }

abbrev zeros : List ℕ
zeros = 0 ∷ 0 ∷ 0 ∷ 0 ∷ []

abbrev total : List ℕ
total = 11 ∷ 22 ∷ 33 ∷ 44 ∷ []

abbrev first_push : Meta × Pairs
first_push = push_of 3 (1 ∷ 2 ∷ 3 ∷ 4 ∷ [])

abbrev second_push : Meta × Pairs
second_push = push_of 5 (10 ∷ 20 ∷ 30 ∷ 40 ∷ [])

decoded : decode_key deps 1 ≡ 1
unfolding decode_key
decoded = omega arith

is_push : (sender : ℕ) (vals : List ℕ) → IsPush deps 1 0 float (push_of sender vals)
is_push sender vals = record {
  command = depair-get_command_type 0 0 (omega arith);
  plain = refl;
  is_push = refl;
  wire_key = 1;
  keys = refl;
  decoded = decoded;
  lens = refl;
}

-- A server as it is started, with a key that has its store.
abbrev started : Server ℕ
started = record (server (some zeros) none no_flags) { flags = [] }

-- The outcome of the round, with these flags.
abbrev over : Flags → Server ℕ
over f = server (some total) (some (store_of 1)) f

abbrev finished_flags : Flags
finished_flags = record no_flags { is_push_finished = some true }

publishes : (f : Flags) → Publishes deps 1 total 4 (over f)
unfolding deref
publishes f = record {
  ptr = store_of 1;
  merged = refl;
  merged_len = refl;
  contents = refl;
  has_keys = inl refl;
}

abbrev two : List Meta
two = (pull_of 5).0 ∷ (pull_of 3).0 ∷ []

two_fresh : AreFresh [] two
unfolding contains
two_fresh = (refl, (refl, tt))

abbrev twice : List Meta
twice = (pull_of 5).0 ∷ (pull_of 5).0 ∷ []

serve_pulls-AreFresh_example :
    (g : Flags) × (t : Server ℕ) × (now : List Meta) × (serve_pulls deps 1 [] twice finished_flags
        (over finished_flags)
      ≡ ok (g, t))
    × Answers deps 1 (over finished_flags) total 4 now t
    × AreFresh [] now
serve_pulls-AreFresh_example =
    serve_pulls-AreFresh deps 1 twice finished_flags (over finished_flags) total 4
      (publishes finished_flags)

serve_pulls_all_example :
    (t : Server ℕ) × (serve_pulls deps 1 [] two finished_flags (over finished_flags)
      ≡ ok (reopened [], t))
    × Answers deps 1 (over finished_flags) total 4 two t
serve_pulls_all_example =
    serve_pulls_all deps 1 (pull_of 5).0 ((pull_of 3).0 ∷ []) finished_flags (over finished_flags)
      total 4 (publishes finished_flags) two_fresh refl

is_initial :
    (sender : ℕ) (vals : List ℕ) → IsInitial deps 1 0 float (length vals) (push_of sender vals)
unfolding IsInitial
is_initial sender vals = (is_push sender vals, refl)

aligned : align 4 0 ≡ ok 128
unfolding align get_data_type_length
aligned = refl

initial_round_example :
    (t : Server ℕ) × (u : Server ℕ) × (handle_all deps (first_push ∷ []) (server none none no_flags)
      ≡ ok t)
    × (t.outbox ≡ [])
    × (handle deps second_push.0 second_push.1 t ≡ ok u)
    × Begun deps 1 0 float
        (server none none no_flags)
        (metas deps 1 0 float (first_push ∷ []) ++ second_push.0 ∷ [])
        second_push.1.vals
        4
        128
        u
initial_round_example =
    initial_round deps 1 0 float (first_push ∷ []) second_push 4 128 (server none none no_flags)
      (is_initial 3 (1 ∷ 2 ∷ 3 ∷ 4 ∷ []), tt) (is_initial 5 (10 ∷ 20 ∷ 30 ∷ 40 ∷ [])) refl refl
      aligned (omega arith) (omega arith) refl refl

abbrev three_threads : Loads
three_threads = record { hash_cache = λ _. none; acc_load = 9 ∷ 2 ∷ 5 ∷ []; engine_thread_num = 3 }

abbrev placed : Loads
placed = record {
  hash_cache = update (λ _. none) 7 (some 1);
  acc_load = 9 ∷ 6 ∷ 5 ∷ [];
  engine_thread_num = 3;
}

places : get_thread_id three_threads 7 4 ≡ ok (1, placed)
unfolding get_thread_id min_index_from
places = refl

abbrev placed_more : Loads
placed_more = record {
  hash_cache = update (update (λ _. none) 7 (some 1)) 8 (some 2);
  acc_load = 9 ∷ 6 ∷ 9 ∷ [];
  engine_thread_num = 3;
}

places_more : get_thread_ids ((8, 4) ∷ (7, 2) ∷ []) placed ≡ ok placed_more
unfolding get_thread_ids get_thread_id min_index_from
places_more = refl

get_thread_id_again_example : get_thread_id placed_more 7 100 ≡ ok (1, placed_more)
get_thread_id_again_example =
    get_thread_id_again three_threads placed placed_more 7 4 1 100 ((8, 4) ∷ (7, 2) ∷ []) places
      places_more

get_thread_id_least_example :
    (tid : ℕ) × (l : Loads) × (get_thread_id three_threads 7 4 ≡ ok (tid, l))
    × IsGiven three_threads 7 4 tid l
get_thread_id_least_example =
    get_thread_id_least three_threads 7 4 9 (2 ∷ 5 ∷ []) refl (omega arith) refl refl (omega arith)

abbrev environment : Environment
environment = record { enable_async = 0; server_engine_thread = 4; server_enable_schedule = 0 }

abbrev no_rows : Server ℕ
no_rows = record (over no_flags) { flags = [] }

no_rows_flags : no_rows.flags ≡ (start_server {C = ℕ} environment).flags
unfolding start_server
no_rows_flags = refl

start_server-out_of_range_example :
    (sync_pull deps 0 1 (pull_of 5).0 no_rows ≡ fail out_of_range)
    × (finish_push deps 0 1 no_rows ≡ fail out_of_range)
start_server-out_of_range_example =
    start_server-out_of_range deps environment no_rows 0 1 (pull_of 5).0 no_rows_flags

abbrev waiting : ℕ → ℕ → Message
waiting id key = record {
  id = id;
  type = float;
  key = key;
  dst = some key;
  src = some (store_of key);
  len = 4;
  ops = all_recv;
  sarray = no_pairs;
  req_meta = none;
}

-- Key 1 has had two pushes, and every other key one.
abbrev ranked : List Message → PriorityQueue
ranked ms = record { queue = ms; push_cnt = λ k. if k == 1 then 2 else 1; enable_schedule = true }

pops :
    wait_and_pop (ranked (waiting 1 1 ∷ waiting 0 2 ∷ []))
    ≡ some (waiting 1 1, ranked (waiting 0 2 ∷ []))
unfolding wait_and_pop
pops = refl

-- Two messages of key 1 with one of key 2 between them: the first one is handed out, though the one
-- of key 2 is to be served before it, since the push count of key 1 has grown under the heap.
stale_heap :
    (let q = push (push (push (create true) (waiting 0 1)) (waiting 1 2)) (waiting 2 1) in
      elim (wait_and_pop q) as (λ _. Option (Message × Bool)) [
        | none ↦ none
        | some (m, rest) ↦ some (m, compare_priority rest m (waiting 1 2))
      ])
    ≡ some (waiting 0 1, true)
unfolding wait_and_pop push create compare_priority
stale_heap = refl
