-- ===== src/Server/Handler.antt =====
-- `DeepIncServerHandle` of deep_inc/server/server.cc, under `handle_mu_`. What it only logs, and the
-- checks that it makes for the log alone, are left out.
use deep_inc.Base.{
  leb, fail, undefined, ℕ, ◌-◌, ◌*◌, ◌/◌, ◌+◌, ◌%◌, ◌^◌, Bool, true, false, not, ◌&&◌, ltb, ◌==◌,
  if◌then◌else◌, Option, none, some, List, [], ◌∷◌, ◌++◌, length, contains, take, replicate, set,
  update, Result, ok, check_failed, check, or_fail, ◌>>=◌, ◌>>◌, out_of_range,
}
use deep_inc.Common.{DataHandleType, depair_data_handle_type, align}
use deep_inc.Server.State.{
  Deps, Server, Meta, Pairs, Message, EngineOperation, sum_recv, copy_first, all_recv, Flags, Ptr,
  store_of, received, no_pairs, copy, decode_key,
}
use deep_inc.Server.Queue
use deep_inc.Server.Load.{Loads, get_thread_id}
use deep_inc.Server.Responses.{send_push_response, send_pull_response}
use deep_inc.Server.Engine.{at, is_finished, ensure_flags, mark_served, end_round}

abbrev pub is_empty {ℓ} : {A : Type ℓ} → List A → Bool
is_empty [] = true
is_empty (x ∷ xs) = false

module _ (d : Deps) where
  abbrev pub put_requests : Server d.Compressor → ℕ → List Meta → Server d.Compressor
  put_requests s key ms = record s {
    update_buf = update s.update_buf key (record (s.update_buf key) { request = ms });
  }

  -- Every request that is buffered for the key is answered, and the buffer cleared.
  unfoldable pub respond_all : ℕ → List Meta → Server d.Compressor → Server d.Compressor
  respond_all key [] s = put_requests s key []
  respond_all key (m ∷ ms) s = respond_all key ms (send_push_response s key m)

  -- An initial push waits for those of all workers.
  unfoldable pub buffer_request :
      ℕ
      → Meta
      → (Server d.Compressor → Result (Server d.Compressor))
      → Server d.Compressor
      → Result (Server d.Compressor)
  buffer_request key m ready s =
      let ms = (s.update_buf key).request ++ m ∷ [] in
      let t = put_requests s key ms in
      if ltb (length ms) d.num_workers then ok t else (ready t >>= λ u. ok (respond_all key ms u))

  -- A read past the end of the data is undefined.
  abbrev check_range : Bool → Result (Unit {0})
  check_range b = if b then ok tt else fail out_of_range

  unfoldable pub register_compressor :
      ℕ → Meta → Pairs → Server d.Compressor → Result (Server d.Compressor)
  register_compressor key m req s =
      let made : Result (Server d.Compressor) = elim (s.compressor_map key) [
        | some c ↦ ok s
        | none ↦ do
          n ← at req.lens 0
          size ← align (s.store key).len (s.store key).dtype
          check_range (leb n (length req.vals))
          c ← or_fail (d.create (take n req.vals) size (s.store key).dtype) check_failed
          ok (record s { compressor_map = update s.compressor_map key (some c) })
      ] in
      made >>= buffer_request key m ok

  -- `PageAlignedMalloc`. The size is rounded up to pages in `int`. Where that overflows or is not the
  -- size any more, the sum, the allocation or the filling is undefined, or the check of it fails.
  unfoldable pub page_aligned_malloc : ℕ → Result (List ℕ)
  page_aligned_malloc size =
      let aligned = (size + d.page_size - 1) / d.page_size * d.page_size in
      if leb (size + d.page_size) (2 ^ 31)
      then check (d.posix_memalign aligned) >> ok (replicate size 0)
      else fail undefined

  -- The first buffer of a key: zeros up to the aligned size, and the data of the push that completes
  -- the round.
  unfoldable pub init_store :
      ℕ → DataHandleType → List ℕ → ℕ → Server d.Compressor → Result (Server d.Compressor)
  init_store key type recved len s = do
    size ← align len type.dtype
    blank ← page_aligned_malloc size
    bytes ← copy blank recved len
    ok (record s {
      store = update s.store key (record { tensor = some bytes; len = len; dtype = type.dtype });
    })

  unfoldable pub init_push :
      ℕ → DataHandleType → Meta → Pairs → ℕ → Server d.Compressor → Result (Server d.Compressor)
  init_push key type m req len s =
      let u = s.update_buf key in
      let merged =
        if s.config.sync_mode
        then record (u.merged) { len = len; dtype = type.dtype }
        else u.merged in
      buffer_request key m (init_store key type req.vals len)
        (record s { update_buf = update s.update_buf key (record u { merged = merged }) })

  unfoldable pub push_message : ℕ → Message → Server d.Compressor → Result (Server d.Compressor)
  push_message tid m s = do
    q ← at s.engine_queues tid
    ok (record s {
      engine_queues = set s.engine_queues tid (Queue.push q m);
      timestamp = (s.timestamp + 1) % 2 ^ 64;
    })

  abbrev pub message :
      Server d.Compressor
      → DataHandleType
      → ℕ
      → Ptr
      → EngineOperation
      → Pairs
      → Option Meta
      → Message
  message s type key src ops sarray req_meta = record {
    id = s.timestamp;
    type = type;
    key = key;
    dst = some key;
    src = some src;
    len = (s.store key).len;
    ops = ops;
    sarray = sarray;
    req_meta = req_meta;
  }

  -- The data of one worker goes to the engine, or straight into the store if the server is
  -- asynchronous.
  unfoldable pub take_data :
      ℕ → ℕ → DataHandleType → Meta → Pairs → ℕ → Server d.Compressor → Result (Server d.Compressor)
  take_data tid key type m req len s =
      let u = s.update_buf key in
      if is_empty u.request
      then if s.config.sync_mode
        then push_message tid (message s type key (received req.vals) copy_first req (some m))
            (record s {
              update_buf =
                  update s.update_buf key
                    (record u { merged = record (u.merged) { tmp_sarray = some req } });
            })
        else (do
          bytes ← or_fail (s.store key).tensor check_failed
          bytes' ← d.sum (s.store key).dtype bytes req.vals len
          ok (record s {
            store = update s.store key (record (s.store key) { tensor = some bytes' });
          }))
      else (check s.config.sync_mode
          >> push_message tid (message s type key (received req.vals) sum_recv req (some m)) s)

  -- After the push of the last worker the engine is told to publish.
  unfoldable pub end_push :
      ℕ → ℕ → DataHandleType → Server d.Compressor → Result (Server d.Compressor)
  end_push tid key type s =
      if s.config.sync_mode && length (s.update_buf key).request == d.num_workers
      then (do
        t ← push_message tid (message s type key (store_of key) all_recv no_pairs none) s
        q ← at t.engine_queues tid
        let u = record t { engine_queues = set t.engine_queues tid (Queue.clear_counter q key) }
        ok (put_requests u key []))
      else ok (if s.config.sync_mode then s else put_requests s key [])

  abbrev pub loads : Server d.Compressor → Loads
  loads s = record {
    hash_cache = s.hash_cache;
    acc_load = s.acc_load;
    engine_thread_num = s.config.engine_thread_num;
  }

  unfoldable pub later_push :
      ℕ → DataHandleType → Meta → Pairs → ℕ → Server d.Compressor → Result (Server d.Compressor)
  later_push key type m req len s = do
    (tid, l) ← get_thread_id (loads s) key len
    t ←
        take_data tid key type m req len
          (record s { hash_cache = l.hash_cache; acc_load = l.acc_load })
    let u = put_requests t key ((t.update_buf key).request ++ m ∷ [])
    end_push tid key type (send_push_response u key m)

  unfoldable pub handle_push :
      ℕ → DataHandleType → Meta → Pairs → Server d.Compressor → Result (Server d.Compressor)
  handle_push key type m req s = do
    check (length req.lens == 1)
    len ← at req.lens 0
    check (length req.vals == len)
    elim (s.store key).tensor [
      | none ↦ init_push key type m req len s
      | some bytes ↦ later_push key type m req len s
    ]

  abbrev pub put_flags : Server d.Compressor → ℕ → (ℕ → Flags) → ℕ → Flags → Server d.Compressor
  put_flags s tid row key f = record s { flags = set s.flags tid (update row key f) }

  -- A pull in a server that waits for all pushes: answered if the pushes are over and the sender was
  -- not answered yet in this round, queued otherwise.
  unfoldable pub sync_pull : ℕ → ℕ → Meta → Server d.Compressor → Result (Server d.Compressor)
  sync_pull tid key m s = do
    row ← at s.flags tid
    let f = ensure_flags (row key)
    let g = mark_served f m.sender
    let g' = if g.pull_cnt == d.num_workers then end_round g else g
    (if is_finished f && not (contains f.seen_sender m.sender)
        then (send_pull_response d s key m >>= λ t. ok (put_flags t tid row key g'))
        else ok
            (put_flags s tid row key (record f { q_pull_reqmeta = f.q_pull_reqmeta ++ m ∷ [] })))

  unfoldable pub handle_pull : ℕ → Meta → Server d.Compressor → Result (Server d.Compressor)
  handle_pull key m s = do
    bytes ← or_fail (s.store key).tensor check_failed
    (if s.config.sync_mode
        then (get_thread_id (loads s) key 0 >>= λ r. sync_pull r.0 key m s)
        else send_pull_response d s key m)

  unfoldable pub handle : Meta → Pairs → Server d.Compressor → Result (Server d.Compressor)
  handle m req s = do
    type ← depair_data_handle_type m.cmd
    check (length req.keys == 1)
    k ← at req.keys 0
    let key = decode_key d k
    (if type.request_type == 2
        then register_compressor key m req s
        else if m.push
        then handle_push key type m req s
        else handle_pull key m s)
