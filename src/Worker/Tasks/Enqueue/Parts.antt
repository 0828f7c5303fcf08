-- ===== src/Worker/Tasks/Enqueue/Parts.antt =====
-- What a tensor's tasks are when they enter the first queue.
use mathlib.Core.List.{append_assoc, append-nil}
use deep_inc.Base.{
  ℕ, zero, suc, ◌+◌, ◌%◌, ◌^◌, ◌≤◌, ◌<◌, ◌≡◌, refl, ap, sym, subst, ◌∙◌, inl, inr, true, false, ltb,
  Option, some, List, [], ◌∷◌, ◌++◌, length, All, update, update_self, eqb_ℤ, negsuc, Bool-cases,
  Result-cases, ok, to_string, arith,
}
use deep_inc.Common.{QueueType, queue_index}
use deep_inc.Worker.State.{Task, Tensor, Context, is_named}
use deep_inc.Worker.ScheduledQueue.{Device, ScheduledQueue, add_task}
use deep_inc.Worker.Partition.{
  is_set, part_len, compressor_at, partition, partition_from, partition_tensor, entry_size,
}
use deep_inc.Worker.Partition.Tiles.{Tiles, HasCompressors, div_up, partition_tensor-Tiles}
use deep_inc.Worker.Stages.{add_compression}
use deep_inc.Worker.Tasks.{World, put_context, put_queue}
use deep_inc.Worker.Tasks.Enqueue.{
  Request, sizes_match, pin, make_entry, add_tasks, lens, profile_start, start_entry,
  enqueue_tensor,
}

-- A part shares what counts its tensor's parts, and the way through the stages.
pub record IsPartOf (entry t : Task) : Type 0 where
  pub named : is_named t.tensor_name ≡ true
  pub counter : t.counter_ptr ≡ entry.counter_ptr
  pub total : t.total_partnum ≡ entry.total_partnum
  pub callback : t.callback ≡ entry.callback
  pub stages : t.queue_list ≡ entry.queue_list

is_named-append : (xs : List ℕ) (c : ℕ) (ys : List ℕ) → is_named (xs ++ c ∷ ys) ≡ true
is_named-append [] c ys = refl
is_named-append (x ∷ xs) c ys = refl

partition-IsPartOf :
    (entry : Task) (size bound acc i : ℕ) (c : Option ℕ)
    → IsPartOf entry (partition entry size bound acc i c)
unfolding partition
partition-IsPartOf entry size bound acc i c = record {
  named = is_named-append entry.tensor_name b'_' (to_string i);
  counter = refl;
  total = refl;
  callback = refl;
  stages = refl;
}

partition_from-IsPartOf :
    (fuel : ℕ) (entry : Task) (cs : List ℕ) (size bound acc i : ℕ) (ps : List Task)
    → partition_from fuel entry cs size bound acc i ≡ ok ps
    → All (IsPartOf entry) ps
unfolding partition_from
partition_from-IsPartOf zero entry cs size bound acc i ps run = cc run
partition_from-IsPartOf (suc fuel) entry cs size bound acc i ps run =
    let n = part_len size bound acc % 2 ^ 32 in
    elim (Bool-cases (ltb acc size)) [
      | inr done ↦
          let none_left : [] ≡ ps = ground (arith, run, done) in
          subst (All (IsPartOf entry)) none_left tt
      | inl more ↦ elim (Result-cases (compressor_at cs i)) [
        | inr (x, failed) ↦ ground (arith, run, more, failed)
        | inl (c, found) ↦
            elim (Result-cases (partition_from fuel entry cs size bound (acc + n) (i + 1))) [
              | inr (x, failed) ↦ ground (arith, run, more, found, failed)
              | inl (rest, tail) ↦
                  let whole : partition entry size bound acc i c ∷ rest ≡ ps =
                    ground (arith, run, more, found, tail) in
                  subst (All (IsPartOf entry)) whole (
                    partition-IsPartOf entry size bound acc i c,
                    partition_from-IsPartOf fuel entry cs size bound (acc + n) (i + 1) rest tail,
                  )
            ]
      ]
    ]

-- The tasks with their keys.
abbrev pub keyed : List Task → List ℕ → List Task
keyed [] ks = []
keyed (t ∷ ts) [] = []
keyed (t ∷ ts) (k ∷ ks) = record t { key = k } ∷ keyed ts ks

add_task-eq :
    (q : ScheduledQueue) (t : Task)
    → q.is_scheduled ≡ false
    → is_named t.tensor_name ≡ true
    → add_task q t ≡ ok (record q { sq = q.sq ++ t ∷ [] })
unfolding add_task
add_task-eq q t off named = ground (arith, off, named)

add_tasks-eq :
    (entry : Task) (ts : List Task) (ks : List ℕ) (q : ScheduledQueue)
    → q.is_scheduled ≡ false
    → All (IsPartOf entry) ts
    → length ks ≡ length ts
    → add_tasks ts ks q ≡ ok (record q { sq = q.sq ++ keyed ts ks })
unfolding add_tasks
add_tasks-eq entry [] ks q off all same =
    ap (λ xs. ok (record q { sq = xs })) (sym (append-nil q.sq))
add_tasks-eq entry (t ∷ ts) [] q off all same = cc same
add_tasks-eq entry (t ∷ ts) (k ∷ ks) q off all same =
    let t' = record t { key = k } in
    rw (add_task-eq q t' off all.0.named) (
      add_tasks-eq entry ts ks (record q { sq = q.sq ++ t' ∷ [] }) off all.1 (omega arith)
      ∙ ap (λ xs. ok (record q { sq = xs })) (append_assoc q.sq (t' ∷ []) (keyed ts ks)))

Tiles-lens : (bound from to : ℕ) (ts : List Task) → Tiles bound from to ts → from + lens ts ≡ to
Tiles-lens bound from to [] same = omega (arith, same)
Tiles-lens bound from to (t ∷ ts) tiles =
    omega (arith, tiles.0, Tiles-lens bound (from + t.len) to ts tiles.3)

whole_lens : (bound size : ℕ) (ts : List Task) → Tiles bound 0 size ts → lens ts ≡ size
whole_lens bound size ts tiles = omega (arith, Tiles-lens bound 0 size ts tiles)

profile_start-key_list : (now : ℕ) (c : Context) → (profile_start now c).key_list ≡ c.key_list
unfolding profile_start
profile_start-key_list now c = elim (Bool-cases c.profile_flag) [
  | inl on ↦ rw on refl
  | inr off ↦ rw off refl
]

start_entry-eq :
    (now : ℕ) (r : Request) (parts : List Task) (q : QueueType) (qs : List QueueType) (u : World)
    (x : Tensor) (s : ScheduledQueue)
    → r.input ≡ some x
    → add_tasks parts (profile_start now (u.contexts r.ctx)).key_list (u.queues (queue_index q))
      ≡ ok s
    → lens parts ≡ x.size
    → x.size ≤ 2 ^ 32
    → start_entry now r parts (q ∷ qs) u
      ≡ ok (put_queue (put_context u r.ctx (profile_start now (u.contexts r.ctx))) q s)
unfolding start_entry
start_entry-eq now r parts q qs u x s input added whole small = ground (arith, input, added, whole)

-- The world in which the parts are made: the counter of the tensor is new.
abbrev counting : World → ℕ → World
counting w ctx = record (put_context w ctx (w.contexts ctx)) {
  counters = update w.counters w.next_counter 0;
  next_counter = w.next_counter + 1;
}

enqueue_tensor-eq :
    (d : Device) (pointer : ℕ → ℕ) (now : ℕ) (r : Request) (w v : World) (q : QueueType)
    (qs : List QueueType) (parts : List Task)
    → sizes_match r ≡ true
    → eqb_ℤ r.device (negsuc 0) ≡ false
    → add_compression d (w.contexts r.ctx).compressor_list r.queue_list ≡ ok (q ∷ qs)
    → partition_tensor d.partition_bound
        (w.contexts r.ctx).compressor_list
        (make_entry r (w.contexts r.ctx) (q ∷ qs) w.next_counter)
      ≡ ok parts
    → length (w.contexts r.ctx).key_list ≡ length parts
    → start_entry now r parts (q ∷ qs) (counting w r.ctx) ≡ ok v
    → enqueue_tensor d pointer false now r w ≡ ok (q ∷ qs, v)
unfolding enqueue_tensor pin
enqueue_tensor-eq d pointer now r w v q qs parts match gpu stages made count started =
    ground (arith, match, gpu, stages, made, count, started)

make_entry-size :
    (r : Request) (c : Context) (qs : List QueueType) (n : ℕ) (x : Tensor)
    → r.input ≡ some x
    → (entry_size (make_entry r c qs n) ≡ ok x.size)
      × (is_set (make_entry r c qs n).counter_ptr ≡ true)
unfolding entry_size make_entry
make_entry-size r c qs n x input = (rw input refl, refl)

partition_tensor-IsPartOf :
    (bound : ℕ) (cs : List ℕ) (entry : Task) (size : ℕ) (ps : List Task)
    → is_set entry.counter_ptr ≡ true
    → entry_size entry ≡ ok size
    → partition_tensor bound cs entry ≡ ok ps
    → All (IsPartOf entry) ps
unfolding partition_tensor
partition_tensor-IsPartOf bound cs entry size ps counted sized run =
    partition_from-IsPartOf (suc size) entry cs size bound 0 0 ps
      (ground (arith, run, counted, sized))

-- Takes a worker that is not shutting down and a tensor on a GPU of at most 4 GiB, with an output
-- that has its size or none, whose list of stages, with compression added, is not empty; a positive
-- bound below 2 ^ 32; as many keys in the context as the tensor has parts; no compressor or at
-- least one for each part; and a first queue that is not scheduled. Then `EnqueueTensor` returns:
-- the parts cover the tensor from its first byte to its last without a gap or an overlap, none
-- empty or longer than the bound; each is named and has the entry's counter, number of parts,
-- callback and stages; with the context's keys, in order, they stand at the end of the first queue;
-- the counter is new and at 0; and no callback has run.
pub enqueue_tensor-Tiles :
    (d : Device) (pointer : ℕ → ℕ) (now : ℕ) (r : Request) (w : World) (q : QueueType)
    (qs : List QueueType) (x : Tensor)
    → r.input ≡ some x
    → sizes_match r ≡ true
    → eqb_ℤ r.device (negsuc 0) ≡ false
    → add_compression d (w.contexts r.ctx).compressor_list r.queue_list ≡ ok (q ∷ qs)
    → 0 < d.partition_bound
    → d.partition_bound < 2 ^ 32
    → x.size ≤ 2 ^ 32
    → HasCompressors (w.contexts r.ctx).compressor_list (div_up x.size d.partition_bound)
    → length (w.contexts r.ctx).key_list ≡ div_up x.size d.partition_bound
    → (w.queues (queue_index q)).is_scheduled ≡ false
    → (parts : List Task) × (v : World) × (enqueue_tensor d pointer false now r w ≡ ok (q ∷ qs, v))
      × Tiles d.partition_bound 0 x.size parts
      × All (IsPartOf (make_entry r (w.contexts r.ctx) (q ∷ qs) w.next_counter)) parts
      × (length parts ≡ length (w.contexts r.ctx).key_list)
      × ((v.queues (queue_index q)).sq
          ≡ (w.queues (queue_index q)).sq ++ keyed parts (w.contexts r.ctx).key_list)
      × (v.counters w.next_counter ≡ 0)
      × (v.called ≡ w.called)
enqueue_tensor-Tiles d pointer now r w q qs x input match gpu stages pos small fits has keys off =
    let c = w.contexts r.ctx in
    let entry = make_entry r c (q ∷ qs) w.next_counter in
    let (sized, counted) = make_entry-size r c (q ∷ qs) w.next_counter x input in
    let (parts, made, tiles, count) =
      partition_tensor-Tiles d.partition_bound x.size c.compressor_list entry pos small fits counted
        sized has in
    let all =
      partition_tensor-IsPartOf d.partition_bound c.compressor_list entry x.size parts counted sized
        made in
    let u = counting w r.ctx in
    let same : (profile_start now (u.contexts r.ctx)).key_list ≡ c.key_list =
      profile_start-key_list now (u.contexts r.ctx)
      ∙ ap (λ (y : Context). y.key_list) (update_self w.contexts r.ctx c) in
    let s = record (u.queues (queue_index q)) {
      sq =
          (u.queues (queue_index q)).sq
          ++ keyed parts (profile_start now (u.contexts r.ctx)).key_list;
    } in
    let added =
      add_tasks-eq entry parts (profile_start now (u.contexts r.ctx)).key_list
        (u.queues (queue_index q)) off all (ap length same ∙ keys ∙ sym count) in
    let v = put_queue (put_context u r.ctx (profile_start now (u.contexts r.ctx))) q s in
    (
      parts,
      v,
      enqueue_tensor-eq d pointer now r w v q qs parts match gpu stages made (keys ∙ sym count) (
          start_entry-eq now r parts q qs u x s input added
            (whole_lens d.partition_bound x.size parts tiles) fits),
      tiles,
      all,
      count ∙ sym keys,
      ap (λ (y : ScheduledQueue). y.sq) (update_self u.queues (queue_index q) s)
          ∙ ap (λ ks. (w.queues (queue_index q)).sq ++ keyed parts ks) same,
      update_self w.counters w.next_counter 0,
      refl,
    )
