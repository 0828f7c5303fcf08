-- ===== src/Server/Rounds/Publish.antt =====
-- The engine's rounds on the pushes of a key, and the one at their end.
use deep_inc.Base.{
  ℕ, ◌≡◌, ◌≢◌, refl, ap, ◌∙◌, Bool, false, none, some, List, [], ◌∷◌, ◌++◌, map, length,
  if◌then◌else◌, >>=-eq-ok, ok, fail, out_of_range, arith,
}
use deep_inc.Server.State.{
  Deps, Server, Meta, Pairs, Message, terminate, store_of, PriorityQueue, copy,
}
use deep_inc.Server.Engine.{engine_step, process, prepare, finish_push, merge}
use deep_inc.Server.Rounds.Jobs.{Job, job_of, data_jobs, end_job}
use deep_inc.Server.Rounds.Merge.{
  AtWork, popped, engine_step-fails, engine_rounds, engine_rounds-suc, engine_rounds-zero, combine,
  first_job, data_step, Worked,
}

module _ (d : Deps) (key i : ℕ) where
  process-end :
      (s : Server d.Compressor) (m : Message) (len dtype : ℕ)
      → s.compressor_map key ≡ none
      → job_of m ≡ end_job key len dtype
      → process d i m s ≡ finish_push d i key (merge d s key (store_of key) len)
  unfolding process prepare
  process-end s m len dtype plain job = ground (
    arith,
    ap (λ (j : Job). j.ops) job,
    ap (λ (j : Job). j.key) job,
    ap (λ (j : Job). j.dst) job,
    ap (λ (j : Job). j.src) job,
    ap (λ (j : Job). j.len) job,
  )

  end_live : (m : Message) (len dtype : ℕ) → job_of m ≡ end_job key len dtype → m.ops ≢ terminate
  end_live m len dtype job = cc (ap (λ (j : Job). j.ops) job)

  combine-cons :
      (len dtype : ℕ) (first : Bool) (old bytes : List ℕ) (p : Meta × Pairs)
      (ps : List (Meta × Pairs))
      → combine d len dtype first old (p ∷ ps) ≡ ok bytes
      → (new : List ℕ) × ((if first then copy old p.1.vals len else d.sum dtype old p.1.vals len)
          ≡ ok new)
        × (combine d len dtype false new ps ≡ ok bytes)
  unfolding combine
  combine-cons len dtype first old bytes p ps e = >>=-eq-ok _ _ e

  combine-nil :
      (len dtype : ℕ) (first : Bool) (old bytes : List ℕ)
      → combine d len dtype first old [] ≡ ok bytes
      → old ≡ bytes
  unfolding combine
  combine-nil len dtype first old bytes e = cc

  -- In an engine thread whose queue holds the messages of a round, as many rounds of the loop as
  -- there are pushes put them together, and the last message is left.
  pub rounds-Worked :
      (ps : List (Meta × Pairs)) (s : Server d.Compressor) (q : PriorityQueue) (len dtype : ℕ)
      (first : Bool) (old bytes : List ℕ)
      → AtWork d key i s q
      → map job_of q.queue ≡ data_jobs key len dtype first ps ++ end_job key len dtype ∷ []
      → (s.store key).tensor ≡ some old
      → combine d len dtype first old ps ≡ ok bytes
      → (t : Server d.Compressor) × (engine_rounds d i (length ps) s ≡ ok t)
        × Worked d key i s (end_job key len dtype ∷ []) bytes t
  rounds-Worked [] s q len dtype first old bytes w jobs stored sum = (
    s,
    engine_rounds-zero d i s,
    record {
      queue = q;
      work = w;
      jobs = jobs;
      stored = stored ∙ ap some (combine-nil len dtype first old bytes sum);
      len = refl;
      flags = refl;
      update_buf = refl;
      outbox = refl;
      responses = refl;
    },
  )
  rounds-Worked (p ∷ ps) s q len dtype first old bytes w jobs stored sum =
      let (new, made, sum') = combine-cons len dtype first old bytes p ps sum in
      let (t, e, on) =
        data_step d key i s q len dtype first p.1.vals old new _ w jobs stored made in
      let (u, e', done) =
        rounds-Worked ps t on.queue len dtype false new bytes on.work on.jobs on.stored sum' in
      (
        u,
        engine_rounds-suc d i (length ps) s t u e e',
        record {
          queue = done.queue;
          work = done.work;
          jobs = done.jobs;
          stored = done.stored;
          len = done.len ∙ on.len;
          flags = done.flags ∙ on.flags;
          update_buf = done.update_buf ∙ on.update_buf;
          outbox = done.outbox ∙ on.outbox;
          responses = done.responses ∙ on.responses;
        },
      )

  finish_push-unsized :
      (s : Server d.Compressor) → s.flags ≡ [] → finish_push d i key s ≡ fail out_of_range
  unfolding finish_push
  finish_push-unsized s none_there = ground (arith, none_there)

  -- Without a row of flags the end of the round stops the thread.
  pub end-out_of_range :
      (s : Server d.Compressor) (q : PriorityQueue) (len dtype : ℕ)
      → AtWork d key i s q
      → map job_of q.queue ≡ end_job key len dtype ∷ []
      → s.flags ≡ []
      → engine_step d i s ≡ fail out_of_range
  end-out_of_range s q len dtype w jobs unsized =
      let (m, ms, e, job, rest) = first_job q.queue _ [] jobs in
      let s' = popped d key i s q ms in
      engine_step-fails d key i s q m ms out_of_range w e (end_live m len dtype job)
        (process-end s' m len dtype w.plain job ∙ finish_push-unsized _ unsized)
