-- ===== src/Examples/Tasks.antt =====
-- Two parts that come to their end, and a tensor that is initialized.
use deep_inc.Base.{
  ℕ, ◌+◌, ◌≡◌, refl, true, false, none, some, [], ◌∷◌, ◌++◌, length, pos, ok, arith,
}
use deep_inc.Common.{broadcast, align, get_data_type_length}
use deep_inc.Worker.State.{Task}
use deep_inc.Worker.Partition.{init_keys, keys_from, part_len, start_key}
use deep_inc.Worker.Trace.{Trace, PushPullSpeed, set_profile_flag}
use deep_inc.Worker.Tasks.{World}
use deep_inc.Worker.Tasks.Finish.{IsLastStage, finish_all, rings, callback_once}
use deep_inc.Worker.Init.{
  Platform, Init, init_tensor, init_context, init_servers, push_parts, push_part, register,
  open_buffer, register_cpubuff, drop_kwargs,
}
use deep_inc.Worker.Tasks.Enqueue.{Request, sizes_match, make_entry, enqueue_tensor}
use deep_inc.Worker.Tasks.Enqueue.Parts.{IsPartOf, keyed, enqueue_tensor-Tiles}
use deep_inc.Worker.Partition.Tiles.{Tiles}
use deep_inc.Worker.Stages.{add_compression}
use deep_inc.Worker.Declare.{declare_all, re_declare_tensor, shutdown}
use deep_inc.Worker.Declare.Resume.{keys_of, nothing, resume_keeps_keys}
use deep_inc.Base.{inl, List, ◌++◌, All}
use deep_inc.Examples.Queue.{root, task, context, queue, tables}
use deep_inc.Examples.Parts.{settings, blank}

abbrev no_trace : Trace
no_trace = record {
  is_trace = false;
  start_step = 10;
  end_step = 20;
  name2end = [];
  output_counter = pos 0;
  outputs = 0;
}

abbrev speed : PushPullSpeed
speed = record {
  data_points = [];
  acc_size = 0;
  limit = 1024;
  last_ts = 0;
  initialized = false;
  should_record = true;
}

abbrev pub world : World
world = record {
  queues = λ _. queue [];
  tables = tables;
  contexts = λ _. context;
  counters = λ _. 0;
  next_counter = 1;
  called = 9 ∷ [];
  sent = [];
  trace = no_trace;
  speed = speed;
}

abbrev pub last : ℕ → Task
last key = record (task key (pos 0) 4) { queue_list = broadcast ∷ [] }

pub is_last : (key : ℕ) → IsLastStage 0 0 2 5 (last key)
is_last key = record {
  stage = broadcast;
  last = refl;
  context = refl;
  counter = refl;
  parts = refl;
  callback = refl;
  named = refl;
  input = record { id = 1; size = 8 };
  tensor = refl;
}

callback_once_example :
    (w : World) × (finish_all 3 (last 1 ∷ last 2 ∷ []) world ≡ ok w)
    × (w.counters 0 ≡ world.counters 0 + length (last 1 ∷ last 2 ∷ []))
    × (w.called ≡ world.called ++ rings 5 2 (world.counters 0 + length (last 1 ∷ last 2 ∷ [])))
callback_once_example =
    callback_once 3 0 0 2 5 (last 1 ∷ last 2 ∷ []) world (is_last 1, (is_last 2, tt))
      (record { off = refl; no_trace = refl }) (omega arith) (omega arith)

abbrev platform : Platform
platform = record {
  partition_bound = 4;
  min_compress_bound = 100;
  is_distributed = false;
  is_root_device = true;
  is_cross_pcie_switch = false;
  local_rank = 0;
  device_pointer = λ a. a;
  open_pcie_shared_memory = λ _ _. [];
  open_shared_memory = λ key size. key + size;
  create = λ _ _ _. 0;
  serialize = λ _. [];
  settings = settings;
}

abbrev declared : Init
declared = record {
  context = record context { initialized = false; declared_key = 3; key_list = []; buff_len = 0 };
  encoder = blank;
  trace = no_trace;
  pushes = [];
}

abbrev initialized : Init
initialized = record declared {
  context = record context {
    declared_key = 3;
    key_list = 196608 ∷ 196609 ∷ 196610 ∷ [];
    buff_len = 10;
    cpubuff = 196736;
  };
}

initializes : init_tensor platform 10 0 none declared ≡ ok initialized
unfolding init_tensor init_context init_servers push_parts push_part register open_buffer
    register_cpubuff drop_kwargs set_profile_flag init_keys keys_from part_len start_key align
    get_data_type_length
initializes = refl

abbrev request : Request
request = record {
  ctx = 0;
  input = some (record { id = 1; size = 8 });
  output = some (record { id = 2; size = 8 });
  ready_event = none;
  device = pos 0;
  priority = pos 0;
  version = pos 0;
  callback = 5;
  queue_list = broadcast ∷ [];
}

abbrev unscheduled : World
unscheduled = record world { queues = λ _. record (queue []) { is_scheduled = false } }

sizes : sizes_match request ≡ true
unfolding sizes_match
sizes = refl

no_compression : add_compression root [] (broadcast ∷ []) ≡ ok (broadcast ∷ [])
unfolding add_compression
no_compression = refl

enqueue_tensor-Tiles_example :
    (parts : List Task) × (v : World) × (enqueue_tensor root (λ a. a) false 3 request unscheduled
      ≡ ok (broadcast ∷ [], v))
    × Tiles 4 0 8 parts
    × All (IsPartOf (make_entry request context (broadcast ∷ []) 1)) parts
    × (length parts ≡ 2)
    × ((v.queues 11).sq ≡ [] ++ keyed parts (1 ∷ 2 ∷ []))
    × (v.counters 1 ≡ 0)
    × (v.called ≡ 9 ∷ [])
enqueue_tensor-Tiles_example =
    enqueue_tensor-Tiles root (λ a. a) 3 request unscheduled broadcast []
      (record { id = 1; size = 8 }) refl sizes refl no_compression (omega arith) (omega arith)
      (omega arith) (inl refl) (omega arith) refl

abbrev declared_names : List (List ℕ)
declared_names = (b'w' ∷ []) ∷ (b'b' ∷ []) ∷ (b'w' ∷ []) ∷ []

resume_keeps_keys_example :
    keys_of (re_declare_tensor (shutdown (declare_all declared_names nothing))).name_to_cxt
    ≡ keys_of (declare_all declared_names nothing).name_to_cxt
resume_keeps_keys_example = resume_keeps_keys declared_names (omega arith)
