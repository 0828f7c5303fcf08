-- ===== src/Server/Rounds/Pushes.antt =====
-- The pushes of all workers for a key that has its store.
use mathlib.Core.List.{map-append, append_assoc}
use deep_inc.Base.{
  ℕ, ◌+◌, ◌≡◌, refl, ap, subst, ◌∙◌, Bool, true, false, ◌==◌, some, List, [], ◌∷◌, ◌++◌, map,
  length, length-append, All, Result, ok, ◌>>=◌, arith,
}
use deep_inc.Common.{DataHandleType, depair_data_handle_type}
use deep_inc.Server.State.{
  Deps, Server, Stored, Meta, Pairs, Message, Response, no_pairs, decode_key, PriorityQueue,
}
use deep_inc.Server.Handler.{is_empty, handle, handle_push, end_push, later_push, put_requests}
use deep_inc.Server.Responses.{send_push_response}
use deep_inc.Server.Rounds.Enqueue.{
  IsReady, Enqueued, take_data-Enqueued, end_push_early, end_push_last, later_push-eq, acked,
}
use deep_inc.Server.Rounds.Jobs.{Job, job_of, data_job, data_jobs, end_job}

-- The requests of the list reach the server one after the other.
unfoldable pub handle_all :
    (d : Deps) → List (Meta × Pairs) → Server d.Compressor → Result (Server d.Compressor)
handle_all d [] s = ok s
handle_all d (p ∷ ps) s = handle d p.0 p.1 s >>= λ t. handle_all d ps t

module _ (d : Deps) (key tid : ℕ) (type : DataHandleType) where
  -- A push of one worker: one key, and as many bytes as it says.
  pub record IsPush (p : Meta × Pairs) : Type 0 where
    pub command : depair_data_handle_type p.0.cmd ≡ ok type
    pub plain : (type.request_type == 2) ≡ false
    pub is_push : p.0.push ≡ true
    pub wire_key : ℕ
    pub keys : p.1.keys ≡ wire_key ∷ []
    pub decoded : decode_key d wire_key ≡ key
    pub lens : p.1.lens ≡ length p.1.vals ∷ []

  handle-eq-later_push :
      (p : Meta × Pairs) (s : Server d.Compressor) (bytes : List ℕ)
      → IsPush p
      → (s.store key).tensor ≡ some bytes
      → handle d p.0 p.1 s ≡ later_push d key type p.0 p.1 (length p.1.vals) s
  unfolding handle handle_push
  handle-eq-later_push p s bytes is stored =
      ground (arith, is.command, is.plain, is.is_push, is.keys, is.decoded, is.lens)

  -- How a server goes on from another with more jobs in the key's queue.
  pub record Advanced (s : Server d.Compressor) (q : PriorityQueue) (js : List Job)
      (t : Server d.Compressor) : Type 0 where
    pub queue : PriorityQueue
    pub ready : IsReady d key tid t queue
    pub jobs : map job_of queue.queue ≡ map job_of q.queue ++ js
    pub store : t.store ≡ s.store
    pub flags : t.flags ≡ s.flags
    pub compressors : t.compressor_map ≡ s.compressor_map
    pub responses : t.pull_response_map ≡ s.pull_response_map

  Enqueued-Advanced :
      (s t : Server d.Compressor) (q : PriorityQueue) (m : Message)
      → Enqueued d key tid s q m t
      → Advanced s q (job_of m ∷ []) t
  Enqueued-Advanced s t q m on = record {
    queue = on.queue;
    ready = on.ready;
    jobs = ap (map job_of) on.messages ∙ map-append job_of q.queue (m ∷ []);
    store = on.store;
    flags = on.flags;
    compressors = on.compressors;
    responses = on.responses;
  }

  Advanced-trans :
      (s t u : Server d.Compressor) (q : PriorityQueue) (js ks : List Job)
      → (a : Advanced s q js t) → Advanced t a.queue ks u
      → Advanced s q (js ++ ks) u
  Advanced-trans s t u q js ks a b = record {
    queue = b.queue;
    ready = b.ready;
    jobs = rw (b.jobs, a.jobs) (append_assoc (map job_of q.queue) js ks);
    store = b.store ∙ a.store;
    flags = b.flags ∙ a.flags;
    compressors = b.compressors ∙ a.compressors;
    responses = b.responses ∙ a.responses;
  }

  abbrev pub ack : Meta × Pairs → Response
  ack p = record { to = p.0; pairs = no_pairs }

  abbrev job : Server d.Compressor → Bool → Meta × Pairs → Job
  job s first p = data_job key (s.store key).len type.dtype first p.1.vals

  -- A push up to its last step: its data is in the queue, and its sender has an answer.
  push_start :
      (p : Meta × Pairs) (s : Server d.Compressor) (q : PriorityQueue) (bytes : List ℕ)
      → IsReady d key tid s q
      → (s.store key).tensor ≡ some bytes
      → IsPush p
      → (u : Server d.Compressor) × (handle d p.0 p.1 s ≡ end_push d tid key type u)
        × Advanced s q (job s (is_empty (s.update_buf key).request) p ∷ []) u
        × ((u.update_buf key).request ≡ (s.update_buf key).request ++ p.0 ∷ [])
        × (u.outbox ≡ s.outbox ++ ack p ∷ [])
  push_start p s q bytes r stored is =
      let n = length p.1.vals in
      let (t, e, on, same, out) = take_data-Enqueued d key tid s q r type p.0 p.1 n in
      let (on', req, out') = acked d key tid s t q _ p.0 on in
      (
        send_push_response (put_requests d t key ((t.update_buf key).request ++ p.0 ∷ [])) key p.0,
        handle-eq-later_push p s bytes is stored
            ∙ later_push-eq d key tid s t type p.0 p.1 n r.cached e,
        Enqueued-Advanced s _ q _ on',
        req ∙ ap (λ (ms : List Meta). ms ++ p.0 ∷ []) same,
        out' ∙ ap (λ (rs : List Response). rs ++ ack p ∷ []) out,
      )

  longer :
      (u : Server d.Compressor) (ms : List Meta) (m : Meta)
      → (u.update_buf key).request ≡ ms ++ m ∷ []
      → length (u.update_buf key).request ≡ length ms + 1
  longer u ms m e = omega (arith, ap length e, length-append ms (m ∷ []))

  is_empty-append : (ms : List Meta) (m : Meta) → is_empty (ms ++ m ∷ []) ≡ false
  is_empty-append [] m = refl
  is_empty-append (n ∷ ms) m = refl

  -- The jobs of the later pushes are named after the store that the round began with.
  jobs_after :
      (s u : Server d.Compressor) (ps : List (Meta × Pairs)) (ms : List Meta) (m : Meta)
      → u.store ≡ s.store
      → (u.update_buf key).request ≡ ms ++ m ∷ []
      → data_jobs key (u.store key).len type.dtype (is_empty (u.update_buf key).request) ps
          ++ end_job key (u.store key).len type.dtype ∷ []
        ≡ data_jobs key (s.store key).len type.dtype false ps
          ++ end_job key (s.store key).len type.dtype ∷ []
  jobs_after s u ps ms m same req = rw (same, req, is_empty-append ms m)

  handle_all-cons :
      (p : Meta × Pairs) (ps : List (Meta × Pairs)) (s t u : Server d.Compressor)
      → handle d p.0 p.1 s ≡ ok t
      → handle_all d ps t ≡ ok u
      → handle_all d (p ∷ ps) s ≡ ok u
  unfolding handle_all
  handle_all-cons p ps s t u e e' = rw e e'

  handle_all-nil : (t : Server d.Compressor) → handle_all d [] t ≡ ok t
  unfolding handle_all
  handle_all-nil t = refl

  -- The pushes of all workers, from any point of the round on. The last one publishes.
  pub pushes :
      (p : Meta × Pairs) (ps : List (Meta × Pairs)) (s : Server d.Compressor) (q : PriorityQueue)
      (bytes : List ℕ)
      → IsReady d key tid s q
      → (s.store key).tensor ≡ some bytes
      → All IsPush (p ∷ ps)
      → length (s.update_buf key).request + length (p ∷ ps) ≡ d.num_workers
      → (t : Server d.Compressor) × (handle_all d (p ∷ ps) s ≡ ok t)
        × Advanced s q
            (data_jobs key
                (s.store key).len
                type.dtype
                (is_empty (s.update_buf key).request)
                (p ∷ ps)
              ++ end_job key (s.store key).len type.dtype ∷ [])
            t
        × ((t.update_buf key).request ≡ [])
        × (t.outbox ≡ s.outbox ++ map ack (p ∷ ps))
  pushes p [] s q bytes r stored is full =
      let (u, e, a, req, out) = push_start p s q bytes r stored is.0 in
      let grown = longer u (s.update_buf key).request p.0 req in
      let (t, e', on, none_left, out') =
        end_push_last d key tid type u a.queue a.ready (omega arith) in
      let same = ap (λ (st : ℕ → Stored). end_job key (st key).len type.dtype ∷ []) a.store in
      let b = subst (λ js. Advanced u a.queue js t) same (Enqueued-Advanced u t a.queue _ on) in
      (
        t,
        handle_all-cons p [] s t t (e ∙ e') (handle_all-nil t),
        Advanced-trans s u t q _ _ a b,
        none_left,
        out' ∙ out,
      )
  pushes p (p' ∷ ps) s q bytes r stored is full =
      let (u, e, a, req, out) = push_start p s q bytes r stored is.0 in
      let grown = longer u (s.update_buf key).request p.0 req in
      let early = end_push_early d key tid type u a.ready.sync (omega arith) in
      let (t, e', b, none_left, out') =
        pushes p' ps u a.queue bytes a.ready
          (ap (λ (st : ℕ → Stored). (st key).tensor) a.store ∙ stored) is.1 (omega arith) in
      let moved = jobs_after s u (p' ∷ ps) (s.update_buf key).request p.0 a.store req in
      let c = subst (λ js. Advanced u a.queue js t) moved b in
      (
        t,
        handle_all-cons p (p' ∷ ps) s u t (e ∙ early) e',
        Advanced-trans s u t q _ _ a c,
        none_left,
        out' ∙ rw out (append_assoc s.outbox (ack p ∷ []) (map ack (p' ∷ ps))),
      )
