-- ===== src/Worker/Loops/Drain.antt =====
-- Rounds of RunSyncNcclOnce over the groups that are kept.
use deep_inc.Base.{
  ℕ, zero, suc, ◌+◌, ◌<◌, ◌≡◌, ◌∙◌, refl, sym, ap, List, [], ◌∷◌, ◌++◌, length, All, Result, ok,
  fail, ◌>>=◌, Bool, if◌then◌else◌, eq→==, arith,
}
use deep_inc.Worker.State.{Task}
use deep_inc.Worker.Nccl.{NcclGroupEntry, dequeue_group}
use deep_inc.Worker.Tasks.{World, finish_or_proceed}
use deep_inc.Worker.Tasks.Finish.{IsLastStage, IsQuiet, finish_all, callback_once}
use deep_inc.Worker.Loops.{Node}
use deep_inc.Worker.Loops.Groups.{run_sync_nccl_once}

-- Rounds of the loop, one after the other.
unfoldable pub sync_rounds : ℕ → ℕ → Node → Result Node
sync_rounds now zero s = ok s
sync_rounds now (suc n) s = run_sync_nccl_once now s >>= λ u. sync_rounds now n u

-- The tasks of the groups, the oldest group first.
abbrev pub waiting : List NcclGroupEntry → List Task
waiting [] = []
waiting (e ∷ es) = e.tasks ++ waiting es

-- The node when its groups are done.
abbrev pub drained : Node → List NcclGroupEntry → World → Node
drained s es w = record s { world = w; nccl = record (s.nccl) { nccl_pipeline = es } }

bind_assoc :
    {A B C : Type 0} (r : Result A) (f : A → Result B) (g : B → Result C)
    → ((r >>= f) >>= g) ≡ (r >>= λ a. f a >>= g)
bind_assoc (fail e) f g = refl
bind_assoc (ok a) f g = refl

bind_cong :
    {A B : Type 0} (r : Result A) (f g : A → Result B)
    → ((a : A) → f a ≡ g a)
    → (r >>= f) ≡ (r >>= g)
bind_cong (fail e) f g h = refl
bind_cong (ok a) f g h = h a

finish_all-append :
    (now : ℕ) (ts us : List Task) (w : World)
    → finish_all now (ts ++ us) w ≡ (finish_all now ts w >>= λ v. finish_all now us v)
unfolding finish_all
finish_all-append now [] us w = refl
finish_all-append now (t ∷ ts) us w =
    bind_cong (finish_or_proceed now t w) _ _ (λ r. finish_all-append now ts us r.1)
    ∙ sym (bind_assoc (finish_or_proceed now t w) _ _)

sync_rounds-from :
    (now : ℕ) (es : List NcclGroupEntry) (s : Node) (w : World)
    → sync_rounds now (length es) (drained s es w)
      ≡ (finish_all now (waiting es) w >>= λ v. ok (drained s [] v))
unfolding sync_rounds run_sync_nccl_once dequeue_group finish_all
sync_rounds-from now [] s w = refl
sync_rounds-from now (e ∷ es) s w =
    bind_assoc (finish_all now e.tasks w) _ _
    ∙ bind_cong (finish_all now e.tasks w) _ _ (λ v. sync_rounds-from now es s v)
    ∙ sym (bind_assoc (finish_all now e.tasks w) _ _)
    ∙ ap (λ (r : Result World). r >>= λ v. ok (drained s [] v))
        (sym (finish_all-append now e.tasks (waiting es) w))

pub sync_rounds-drained :
    (now : ℕ) (s : Node)
    → sync_rounds now (length s.nccl.nccl_pipeline) s
      ≡ (finish_all now (waiting s.nccl.nccl_pipeline) s.world >>= λ w. ok (drained s [] w))
sync_rounds-drained now s = sync_rounds-from now s.nccl.nccl_pipeline s s.world

-- For a tensor that is not profiled, in a worker that does not trace: if the tasks of the groups in
-- the pipeline are in their last stage, share its context, counter, number of parts and callback,
-- and are exactly the parts that the counter, below that number, still misses, then as many rounds
-- of the synchronizing loop as there are groups return, leave no group, and have run the callback
-- once and nothing else.
pub sync_calls_back :
    (now k i n cb : ℕ) (s : Node)
    → let ts = waiting s.nccl.nccl_pipeline in
      All (IsLastStage k i n cb) ts
      → IsQuiet k s.world
      → s.world.counters i < n
      → s.world.counters i + length ts ≡ n
      → (s' : Node) × (sync_rounds now (length s.nccl.nccl_pipeline) s ≡ ok s')
        × (s'.nccl.nccl_pipeline ≡ [])
        × (s'.world.called ≡ s.world.called ++ cb ∷ [])
sync_calls_back now k i n cb s last quiet early all_parts =
    let ts = waiting s.nccl.nccl_pipeline in
    let (w, run, counted, called) =
      callback_once now k i n cb ts s.world last quiet early (omega (arith, all_parts)) in
    (
      drained s [] w,
      sync_rounds-drained now s ∙ ap (λ (r : Result World). r >>= λ v. ok (drained s [] v)) run,
      refl,
      called
          ∙ ap (λ (x : Bool). s.world.called ++ (if x then cb ∷ [] else []))
              (eq→== (s.world.counters i + length ts) n all_parts),
    )
