-- ===== src/Server/Rounds/Enqueue.antt =====
-- What the request handler does with a push for a key that has its store.
use deep_inc.Base.{
  ℕ, ◌+◌, ◌<◌, ◌≡◌, refl, ap, true, false, if◌then◌else◌, none, some, [], ◌∷◌, ◌++◌, length, set,
  update, Bool-cases, inl, inr, ◌%◌, ◌^◌, get_elem?, ok, arith, get_elem?-set_self, get_elem?-lt,
}
use deep_inc.Common.{DataHandleType}
use deep_inc.Server.State.{
  Deps, Server, UpdateBuf, Meta, Pairs, Message, sum_recv, copy_first, all_recv, store_of, received,
  no_pairs, PriorityQueue,
}
use deep_inc.Server.Queue
use deep_inc.Server.Load.{get_thread_id}
use deep_inc.Server.Responses.{send_push_response}
use deep_inc.Server.Handler.{
  is_empty, push_message, message, take_data, end_push, later_push, put_requests,
}

module _ (d : Deps) (key tid : ℕ) where
  -- A synchronous server in which the key has its thread, and the thread its queue.
  pub record IsReady (s : Server d.Compressor) (q : PriorityQueue) : Type 0 where
    pub sync : s.config.sync_mode ≡ true
    pub cached : s.hash_cache key ≡ some tid
    pub queued : get_elem? s.engine_queues tid ≡ some q
    pub fifo : q.enable_schedule ≡ false

  -- The message that a push makes, and the one that tells the engine to publish.
  abbrev pub data_message : Server d.Compressor → DataHandleType → Meta → Pairs → Message
  data_message s type m req =
      message d s type key (received req.vals)
        (if is_empty (s.update_buf key).request then copy_first else sum_recv) req (some m)

  abbrev pub end_message : Server d.Compressor → DataHandleType → Message
  end_message s type = message d s type key (store_of key) all_recv no_pairs none

  -- How a server goes on from another with one more message in the key's queue.
  pub record Enqueued (s : Server d.Compressor) (q : PriorityQueue) (m : Message)
      (t : Server d.Compressor) : Type 0 where
    pub queue : PriorityQueue
    pub ready : IsReady t queue
    pub messages : queue.queue ≡ q.queue ++ m ∷ []
    pub store : t.store ≡ s.store
    pub flags : t.flags ≡ s.flags
    pub compressors : t.compressor_map ≡ s.compressor_map
    pub responses : t.pull_response_map ≡ s.pull_response_map

  push_message-Enqueued :
      (s : Server d.Compressor) (q : PriorityQueue) (r : IsReady s q) (m : Message)
      → (t : Server d.Compressor) × (push_message d tid m s ≡ ok t)
        × Enqueued s q m t
        × (t.update_buf ≡ s.update_buf)
        × (t.outbox ≡ s.outbox)
  unfolding push_message Queue.push
  push_message-Enqueued s q r m =
      let q' = record q { queue = q.queue ++ m ∷ [] } in
      let there =
        get_elem?-set_self s.engine_queues tid q' (get_elem?-lt s.engine_queues tid r.queued) in
      (
        record s {
          engine_queues = set s.engine_queues tid q';
          timestamp = (s.timestamp + 1) % 2 ^ 64;
        },
        ground (arith),
        record {
          queue = q';
          ready = record { sync = r.sync; cached = r.cached; queued = there; fifo = r.fifo };
          messages = refl;
          store = refl;
          flags = refl;
          compressors = refl;
          responses = refl;
        },
        refl,
        refl,
      )

  module _ (s : Server d.Compressor) (q : PriorityQueue) (r : IsReady s q) where
    abbrev with_tmp : Pairs → Server d.Compressor
    with_tmp req =
        let u = s.update_buf key in
        record s {
          update_buf =
              update s.update_buf key
                (record u { merged = record (u.merged) { tmp_sarray = some req } });
        }

    take_data_first :
        (type : DataHandleType) (m : Meta) (req : Pairs) (len : ℕ) (t : Server d.Compressor)
        → is_empty (s.update_buf key).request ≡ true
        → push_message d tid (data_message s type m req) (with_tmp req) ≡ ok t
        → take_data d tid key type m req len s ≡ ok t
    unfolding take_data
    take_data_first type m req len t first e = ground (arith, r.sync)

    take_data_later :
        (type : DataHandleType) (m : Meta) (req : Pairs) (len : ℕ) (t : Server d.Compressor)
        → is_empty (s.update_buf key).request ≡ false
        → push_message d tid (data_message s type m req) s ≡ ok t
        → take_data d tid key type m req len s ≡ ok t
    unfolding take_data
    take_data_later type m req len t later e = ground (arith, r.sync)

    pub take_data-Enqueued :
        (type : DataHandleType) (m : Meta) (req : Pairs) (len : ℕ)
        → (t : Server d.Compressor) × (take_data d tid key type m req len s ≡ ok t)
          × Enqueued s q (data_message s type m req) t
          × ((t.update_buf key).request ≡ (s.update_buf key).request)
          × (t.outbox ≡ s.outbox)
    take_data-Enqueued type m req len = elim (Bool-cases (is_empty (s.update_buf key).request)) [
      | inl first ↦
          let s' = with_tmp req in
          let m' = data_message s type m req in
          let (t, e, on, buf, out) =
            push_message-Enqueued s' q
              (record { sync = r.sync; cached = r.cached; queued = r.queued; fifo = r.fifo }) m' in
          (
            t,
            take_data_first type m req len t first e,
            record {
              queue = on.queue;
              ready = on.ready;
              messages = on.messages;
              store = on.store;
              flags = on.flags;
              compressors = on.compressors;
              responses = on.responses;
            },
            ground (arith, buf),
            out,
          )
      | inr later ↦
          let (t, e, on, buf, out) = push_message-Enqueued s q r (data_message s type m req) in
          (
            t,
            take_data_later type m req len t later e,
            on,
            ap (λ (b : ℕ → UpdateBuf). (b key).request) buf,
            out,
          )
    ]

  pub end_push_early :
      (type : DataHandleType) (s : Server d.Compressor)
      → s.config.sync_mode ≡ true
      → length (s.update_buf key).request < d.num_workers
      → end_push d tid key type s ≡ ok s
  unfolding end_push
  end_push_early type s sync more = ground arith

  end_push-eq :
      (type : DataHandleType) (s t : Server d.Compressor) (q : PriorityQueue)
      → s.config.sync_mode ≡ true
      → length (s.update_buf key).request ≡ d.num_workers
      → push_message d tid (end_message s type) s ≡ ok t
      → get_elem? t.engine_queues tid ≡ some q
      → q.enable_schedule ≡ false
      → end_push d tid key type s
        ≡ ok (put_requests d (record t { engine_queues = set t.engine_queues tid q }) key [])
  unfolding end_push Queue.clear_counter
  end_push-eq type s t q sync all pushed there fifo = ground arith

  pub end_push_last :
      (type : DataHandleType) (s : Server d.Compressor) (q : PriorityQueue)
      → IsReady s q
      → length (s.update_buf key).request ≡ d.num_workers
      → (t : Server d.Compressor) × (end_push d tid key type s ≡ ok t)
        × Enqueued s q (end_message s type) t
        × ((t.update_buf key).request ≡ [])
        × (t.outbox ≡ s.outbox)
  end_push_last type s q r all =
      let (t, e, on, buf, out) = push_message-Enqueued s q r (end_message s type) in
      let there =
        get_elem?-set_self t.engine_queues tid on.queue
          (get_elem?-lt t.engine_queues tid on.ready.queued) in
      (
        put_requests d (record t { engine_queues = set t.engine_queues tid on.queue }) key [],
        end_push-eq type s t on.queue r.sync all e on.ready.queued on.ready.fifo,
        record {
          queue = on.queue;
          ready = record {
            sync = on.ready.sync;
            cached = on.ready.cached;
            queued = there;
            fifo = on.ready.fifo;
          };
          messages = on.messages;
          store = on.store;
          flags = on.flags;
          compressors = on.compressors;
          responses = on.responses;
        },
        ground arith,
        out,
      )

  pub later_push-eq :
      (s t : Server d.Compressor) (type : DataHandleType) (m : Meta) (req : Pairs) (len : ℕ)
      → s.hash_cache key ≡ some tid
      → take_data d tid key type m req len s ≡ ok t
      → later_push d key type m req len s
        ≡ end_push d tid key type
            (send_push_response (put_requests d t key ((t.update_buf key).request ++ m ∷ [])) key m)
  unfolding later_push get_thread_id
  later_push-eq s t type m req len cached e = ground arith

  -- The state in which the last step of a push begins.
  pub acked :
      (s t : Server d.Compressor) (q : PriorityQueue) (msg : Message) (m : Meta)
      → Enqueued s q msg t
      → let u =
          send_push_response (put_requests d t key ((t.update_buf key).request ++ m ∷ [])) key m in
        Enqueued s q msg u
        × ((u.update_buf key).request ≡ (t.update_buf key).request ++ m ∷ [])
        × (u.outbox ≡ t.outbox ++ record { to = m; pairs = no_pairs } ∷ [])
  unfolding send_push_response
  acked s t q msg m on = (
    record {
      queue = on.queue;
      ready = record {
        sync = on.ready.sync;
        cached = on.ready.cached;
        queued = on.ready.queued;
        fifo = on.ready.fifo;
      };
      messages = on.messages;
      store = on.store;
      flags = on.flags;
      compressors = on.compressors;
      responses = on.responses;
    },
    ground arith,
    refl,
  )
