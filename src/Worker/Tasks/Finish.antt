-- ===== src/Worker/Tasks/Finish.antt =====
-- What the end of a task's stages does: the next queue, or the count of the tensor's parts and the
-- callback.
use mathlib.Core.List.{append-nil}
use deep_inc.Base.{
  ℕ, ◌+◌, ◌≤◌, ◌<◌, ◌≡◌, refl, ap, ◌∙◌, inl, inr, true, false, ◌==◌, if◌then◌else◌, some, List, [],
  ◌∷◌, ◌++◌, length, All, update, update_self, Bool-cases, Result, ok, ◌>>=◌, arith,
}
use deep_inc.Common.{QueueType, queue_index}
use deep_inc.Worker.State.{Task, Tensor, Context, is_named}
use deep_inc.Worker.ScheduledQueue.{report_finish}
use deep_inc.Worker.Trace.{set_profile_flag, record_speed}
use deep_inc.Worker.Tasks.{
  World, put_context, put_queue, close_stage, count_part, end_step, note_speed, finish_tensor,
  finish_part, finish_or_proceed,
}

-- A tensor that is not profiled, in a worker that does not trace.
pub record IsQuiet (k : ℕ) (w : World) : Type 0 where
  pub off : (w.contexts k).profile_flag ≡ false
  pub no_trace : w.trace.is_trace ≡ false

-- A task in its last stage, of a tensor with this context, counter, number of parts and callback.
pub record IsLastStage (k i n cb : ℕ) (t : Task) : Type 0 where
  pub stage : QueueType
  pub last : t.queue_list ≡ stage ∷ []
  pub context : t.context ≡ k
  pub counter : t.counter_ptr ≡ some i
  pub parts : t.total_partnum ≡ n
  pub callback : t.callback ≡ cb
  pub named : is_named t.tensor_name ≡ true
  pub input : Tensor
  pub tensor : t.tensor ≡ some input

-- How a world goes on when a part is finished, with these callbacks.
pub record Finished (k i : ℕ) (w : World) (cbs : List ℕ) (w' : World) : Type 0 where
  pub quiet : IsQuiet k w'
  pub counted : w'.counters i ≡ w.counters i + 1
  pub called : w'.called ≡ cbs

end_step-IsQuiet :
    (now k : ℕ) (t : Task) (w : World)
    → t.context ≡ k
    → IsQuiet k w
    → (w' : World) × (end_step now t w ≡ ok w')
      × IsQuiet k w'
      × (w'.counters ≡ w.counters)
      × (w'.called ≡ w.called)
unfolding end_step set_profile_flag
end_step-IsQuiet now k t w at quiet =
    let c = w.contexts k in
    (
      put_context w k (record c { step_cnt = c.step_cnt + 1; profile_flag = false }),
      ground (arith, at, quiet.off, quiet.no_trace),
      record {
        off = ap (λ (x : Context). x.profile_flag) (update_self w.contexts k _);
        no_trace = quiet.no_trace;
      },
      refl,
      refl,
    )

finish_tensor-IsQuiet :
    (now k cb : ℕ) (t : Task) (input : Tensor) (w : World)
    → t.context ≡ k
    → t.callback ≡ cb
    → is_named t.tensor_name ≡ true
    → t.tensor ≡ some input
    → IsQuiet k w
    → (w' : World) × (finish_tensor now t w ≡ ok w')
      × IsQuiet k w'
      × (w'.counters ≡ w.counters)
      × (w'.called ≡ w.called ++ cb ∷ [])
unfolding finish_tensor note_speed
finish_tensor-IsQuiet now k cb t input w at back named tensor quiet =
    elim (Bool-cases w.speed.should_record) [
      | inl on ↦
          let u = record w {
            speed = record_speed w.speed now input.size;
            called = w.called ++ t.callback ∷ [];
          } in
          let (w', e, q, same, out) =
            end_step-IsQuiet now k t u at (record { off = quiet.off; no_trace = quiet.no_trace }) in
          (
            w',
            ground (arith, named, on, tensor, e),
            q,
            same,
            out ∙ ap (λ x. w.called ++ x ∷ []) back,
          )
      | inr off ↦
          let u = record w { called = w.called ++ t.callback ∷ [] } in
          let (w', e, q, same, out) =
            end_step-IsQuiet now k t u at (record { off = quiet.off; no_trace = quiet.no_trace }) in
          (w', ground (arith, named, off, e), q, same, out ∙ ap (λ x. w.called ++ x ∷ []) back)
    ]

-- A part that comes to its end is counted, and the callback runs if it is the last.
finish_part-Finished :
    (now k i n cb : ℕ) (t : Task) (input : Tensor) (w : World)
    → t.context ≡ k
    → t.counter_ptr ≡ some i
    → t.total_partnum ≡ n
    → t.callback ≡ cb
    → is_named t.tensor_name ≡ true
    → t.tensor ≡ some input
    → IsQuiet k w
    → (w' : World) × (finish_part now t w ≡ ok w')
      × Finished k i w (if w.counters i + 1 == n then w.called ++ cb ∷ [] else w.called) w'
unfolding finish_part count_part
finish_part-Finished now k i n cb t input w at counter parts back named tensor quiet =
    let u = record w { counters = update w.counters i (w.counters i + 1) } in
    let quiet' : IsQuiet k u = record { off = quiet.off; no_trace = quiet.no_trace } in
    elim (Bool-cases (w.counters i + 1 == n)) [
      | inl last ↦
          let (w', e, q, same, out) =
            finish_tensor-IsQuiet now k cb t input u at back named tensor quiet' in
          (
            w',
            ground (arith, counter, parts, last, e),
            record {
              quiet = q;
              counted = ap (λ c. c i) same ∙ update_self w.counters i _;
              called = rw last out;
            },
          )
      | inr more ↦ (
        u,
        ground (arith, counter, parts, more),
        record { quiet = quiet'; counted = update_self w.counters i _; called = rw more refl },
      )
    ]

finish_or_proceed-last :
    (now k i n cb : ℕ) (t : Task) (w : World)
    → IsLastStage k i n cb t
    → IsQuiet k w
    → (t' : Task) × (w' : World) × (finish_or_proceed now t w ≡ ok (t', w'))
      × Finished k i w (if w.counters i + 1 == n then w.called ++ cb ∷ [] else w.called) w'
unfolding finish_or_proceed close_stage
finish_or_proceed-last now k i n cb t w is quiet =
    let t' = record t { queue_list = [] } in
    let u = put_queue w is.stage (report_finish (w.queues (queue_index is.stage)) t.len) in
    let (w', e, f) =
      finish_part-Finished now k i n cb t' is.input u is.context is.counter is.parts is.callback
        is.named is.tensor (record { off = quiet.off; no_trace = quiet.no_trace }) in
    (
      t',
      w',
      ground (arith, is.last, is.context, quiet.off, e),
      record { quiet = f.quiet; counted = f.counted; called = f.called },
    )

-- The tasks come to the end of their stage one after the other.
unfoldable pub finish_all : ℕ → List Task → World → Result World
finish_all now [] w = ok w
finish_all now (t ∷ ts) w = finish_or_proceed now t w >>= λ r. finish_all now ts r.1

finish_all-cons :
    (now : ℕ) (t t' : Task) (ts : List Task) (w u v : World)
    → finish_or_proceed now t w ≡ ok (t', u)
    → finish_all now ts u ≡ ok v
    → finish_all now (t ∷ ts) w ≡ ok v
unfolding finish_all
finish_all-cons now t t' ts w u v e e' = rw e e'

finish_all-nil : (now : ℕ) (w : World) → finish_all now [] w ≡ ok w
unfolding finish_all
finish_all-nil now w = refl

abbrev pub rings : ℕ → ℕ → ℕ → List ℕ
rings cb n v = if v == n then cb ∷ [] else []

-- For a tensor that is not profiled, in a worker that does not trace: when tasks of it that are in
-- their last stage and share a context, a counter below the number of parts, that number and a
-- callback are finished one after the other, and are not more than the parts that are missing,
-- every call returns, each adds one to the counter, and the callback has run once more if the
-- counter has reached the number of parts, and has not run otherwise.
pub callback_once :
    (now k i n cb : ℕ) (ts : List Task) (w : World)
    → All (IsLastStage k i n cb) ts
    → IsQuiet k w
    → w.counters i < n
    → w.counters i + length ts ≤ n
    → (w' : World) × (finish_all now ts w ≡ ok w')
      × (w'.counters i ≡ w.counters i + length ts)
      × (w'.called ≡ w.called ++ rings cb n (w.counters i + length ts))
callback_once now k i n cb [] w is quiet early few =
    (w, finish_all-nil now w, omega arith, ground (arith, append-nil w.called))
callback_once now k i n cb (t ∷ []) w is quiet early few =
    let (t', u, e, f) = finish_or_proceed-last now k i n cb t w is.0 quiet in
    (
      u,
      finish_all-cons now t t' [] w u u e (finish_all-nil now u),
      omega (arith, f.counted),
      ground (arith, f.called, append-nil w.called),
    )
callback_once now k i n cb (t ∷ t2 ∷ ts) w is quiet early few =
    let (t', u, e, f) = finish_or_proceed-last now k i n cb t w is.0 quiet in
    let (v, e', counted, out) =
      callback_once now k i n cb (t2 ∷ ts) u is.1 f.quiet (omega (arith, f.counted))
        (omega (arith, f.counted)) in
    let none_yet : u.called ≡ w.called = ground (arith, f.called) in
    let same : u.counters i + length (t2 ∷ ts) ≡ w.counters i + length (t ∷ t2 ∷ ts) =
      omega (arith, f.counted) in
    (
      v,
      finish_all-cons now t t' (t2 ∷ ts) w u v e e',
      omega (arith, f.counted, counted),
      out
          ∙ ap (λ x. x ++ rings cb n (u.counters i + length (t2 ∷ ts))) none_yet
          ∙ ap (λ x. w.called ++ rings cb n x) same,
    )
