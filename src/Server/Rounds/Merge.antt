-- ===== src/Server/Rounds/Merge.antt =====
-- The engine's work on the pushes of a round, for a key without a compressor.
use deep_inc.Base.{
  ℕ, zero, suc, ◌≡◌, ◌≢◌, refl, ap, Bool, true, false, if◌then◌else◌, none, some, List, [], ◌∷◌,
  map, set, get_elem?, get_elem?-set_self, get_elem?-lt, Result, Fault, ok, fail, diverged, ◌>>=◌,
  arith,
}
use deep_inc.Server.State.{
  Deps, Server, Meta, Pairs, Message, terminate, PriorityQueue, copy, deref,
}
use deep_inc.Server.Queue.{wait_and_pop}
use deep_inc.Server.Engine.{engine_step, process, prepare, write_store, put_store}
use deep_inc.Server.Rounds.Jobs.{Job, job_of, data_job}

-- The arrays of the workers put together in the order of their pushes: the first is copied over the
-- store's buffer, and the reducer adds the others.
unfoldable pub combine : (d : Deps) → ℕ → ℕ → Bool → List ℕ → List (Meta × Pairs) → Result (List ℕ)
combine d len dtype first old [] = ok old
combine d len dtype first old (p ∷ ps) =
    (if first then copy old p.1.vals len else d.sum dtype old p.1.vals len) >>= λ new.
    combine d len dtype false new ps

-- So many rounds of the engine's loop, each with a message to work on.
unfoldable pub engine_rounds :
    (d : Deps) → ℕ → ℕ → Server d.Compressor → Result (Server d.Compressor)
engine_rounds d i zero s = ok s
engine_rounds d i (suc n) s = engine_step d i s >>= λ r. elim r [
  | none ↦ fail diverged
  | some (goes_on, t) ↦ if goes_on then engine_rounds d i n t else fail diverged
]

pub engine_rounds-suc :
    (d : Deps) (i n : ℕ) (s t u : Server d.Compressor)
    → engine_step d i s ≡ ok (some (true, t))
    → engine_rounds d i n t ≡ ok u
    → engine_rounds d i (suc n) s ≡ ok u
unfolding engine_rounds
engine_rounds-suc d i n s t u e e' = rw e e'

pub engine_rounds-zero : (d : Deps) (i : ℕ) (s : Server d.Compressor) → engine_rounds d i 0 s ≡ ok s
unfolding engine_rounds
engine_rounds-zero d i s = refl

-- A queue by its jobs begins with a message of the first job.
pub first_job :
    (ms : List Message) (j : Job) (js : List Job)
    → map job_of ms ≡ j ∷ js
    → (m : Message) × (rest : List Message) × (ms ≡ m ∷ rest)
      × (job_of m ≡ j)
      × (map job_of rest ≡ js)
first_job [] j js e = cc
first_job (m ∷ ms) j js e = (m, ms, refl, cc, cc)

module _ (d : Deps) (key i : ℕ) where
  -- The engine's thread has a queue without scheduling, and the key no compressor.
  pub record AtWork (s : Server d.Compressor) (q : PriorityQueue) : Type 0 where
    pub queued : get_elem? s.engine_queues i ≡ some q
    pub fifo : q.enable_schedule ≡ false
    pub plain : s.compressor_map key ≡ none

  abbrev pub popped : Server d.Compressor → PriorityQueue → List Message → Server d.Compressor
  popped s q ms = record s { engine_queues = set s.engine_queues i (record q { queue = ms }) }

  pub engine_step-process :
      (s t : Server d.Compressor) (q : PriorityQueue) (m : Message) (ms : List Message)
      → AtWork s q
      → q.queue ≡ m ∷ ms
      → m.ops ≢ terminate
      → process d i m (popped s q ms) ≡ ok t
      → engine_step d i s ≡ ok (some (true, t))
  unfolding engine_step wait_and_pop
  engine_step-process s t q m ms w e live done = ground (arith, w.queued, w.fifo)

  pub engine_step-fails :
      (s : Server d.Compressor) (q : PriorityQueue) (m : Message) (ms : List Message) (why : Fault)
      → AtWork s q
      → q.queue ≡ m ∷ ms
      → m.ops ≢ terminate
      → process d i m (popped s q ms) ≡ fail why
      → engine_step d i s ≡ fail why
  unfolding engine_step wait_and_pop
  engine_step-fails s q m ms why w e live done = ground (arith, w.queued, w.fifo)

  process-data :
      (s : Server d.Compressor) (m : Message) (len dtype : ℕ) (first : Bool) (vals old new : List ℕ)
      → s.compressor_map key ≡ none
      → job_of m ≡ data_job key len dtype first vals
      → (s.store key).tensor ≡ some old
      → (if first then copy old vals len else d.sum dtype old vals len) ≡ ok new
      → process d i m s ≡ ok (put_store d s key new)
  unfolding process prepare write_store deref
  process-data s m len dtype true vals old new plain job stored made = ground (
    arith,
    ap (λ (j : Job). j.ops) job,
    ap (λ (j : Job). j.key) job,
    ap (λ (j : Job). j.dst) job,
    ap (λ (j : Job). j.src) job,
    ap (λ (j : Job). j.len) job,
    ap (λ (j : Job). j.dtype) job,
  )
  process-data s m len dtype false vals old new plain job stored made = ground (
    arith,
    ap (λ (j : Job). j.ops) job,
    ap (λ (j : Job). j.key) job,
    ap (λ (j : Job). j.dst) job,
    ap (λ (j : Job). j.src) job,
    ap (λ (j : Job). j.len) job,
    ap (λ (j : Job). j.dtype) job,
  )

  -- How the engine goes on from one state to another of the same round.
  pub record Worked (s : Server d.Compressor) (js : List Job) (bytes : List ℕ)
      (t : Server d.Compressor) : Type 0 where
    pub queue : PriorityQueue
    pub work : AtWork t queue
    pub jobs : map job_of queue.queue ≡ js
    pub stored : (t.store key).tensor ≡ some bytes
    pub len : (t.store key).len ≡ (s.store key).len
    pub flags : t.flags ≡ s.flags
    pub update_buf : t.update_buf ≡ s.update_buf
    pub outbox : t.outbox ≡ s.outbox
    pub responses : t.pull_response_map ≡ s.pull_response_map

  data_live :
      (m : Message) (len dtype : ℕ) (first : Bool) (vals : List ℕ)
      → job_of m ≡ data_job key len dtype first vals
      → m.ops ≢ terminate
  data_live m len dtype true vals job e = cc (ap (λ (j : Job). j.ops) job)
  data_live m len dtype false vals job e = cc (ap (λ (j : Job). j.ops) job)

  pub data_step :
      (s : Server d.Compressor) (q : PriorityQueue) (len dtype : ℕ) (first : Bool)
      (vals old new : List ℕ) (js : List Job)
      → AtWork s q
      → map job_of q.queue ≡ data_job key len dtype first vals ∷ js
      → (s.store key).tensor ≡ some old
      → (if first then copy old vals len else d.sum dtype old vals len) ≡ ok new
      → (t : Server d.Compressor) × (engine_step d i s ≡ ok (some (true, t))) × Worked s js new t
  data_step s q len dtype first vals old new js w jobs stored made =
      let (m, ms, e, job, rest) = first_job q.queue _ js jobs in
      let s' = popped s q ms in
      let live = data_live m len dtype first vals job in
      (
        put_store d s' key new,
        engine_step-process s _ q m ms w e live
            (process-data s' m len dtype first vals old new w.plain job stored made),
        record {
          queue = record q { queue = ms };
          work = record {
            queued =
                get_elem?-set_self s.engine_queues i _ (get_elem?-lt s.engine_queues i w.queued);
            fifo = w.fifo;
            plain = w.plain;
          };
          jobs = rest;
          stored = ground arith;
          len = ground arith;
          flags = refl;
          update_buf = refl;
          outbox = refl;
          responses = refl;
        },
      )
