-- ===== src/Worker/ScheduledQueue/Priority.antt =====
-- Scheduling by priority: what the order of the list means for `getTask`.
use deep_inc.Base.{
  ℕ, ◌≡◌, ◌&&◌, Bool, false, some, List, [], ◌∷◌, ◌++◌, All, All-map, All-remove, ok, arith,
}
use deep_inc.Worker.State.{Task}
use deep_inc.Worker.ScheduledQueue.{QueueState, may_run, get_task, runs_before}
use deep_inc.Worker.ScheduledQueue.Order.{IsSorted}
use deep_inc.Worker.ScheduledQueue.Dispatch.{get_task-Dispatched}

-- A task of the list that may run does not run before `t`.
abbrev pub NoneBetter : (Task → Bool) → Task → List Task → Type 0
NoneBetter p t us = All (λ u. (p u && runs_before u t) ≡ false) us

-- With what stands before the task out of the running, the rest of a sorted list is no better.
rest_lem :
    (p : Task → Bool) (front : List Task) (t : Task) (back : List Task)
    → All (λ u. p u ≡ false) front
    → IsSorted (front ++ t ∷ back)
    → NoneBetter p t (front ++ back) × IsSorted (front ++ back)
rest_lem p [] t back out s = (All-map _ (λ u worse. ground (arith, worse)) back s.0, s.1)
rest_lem p (u ∷ front) t back out s =
    let ih = rest_lem p front t back out.1 s.1 in
    ((ground (arith, out.0), ih.0), (All-remove _ front t back s.0, ih.1))

-- In a sorted queue, a task that `getTask` hands out is one of the best: of the tasks left behind,
-- none that could have run instead runs before it. What is left is sorted.
pub get_task_best :
    (ready : ℕ → Bool) (now : ℕ) (s s' : QueueState) (t : Task)
    → IsSorted s.queue.sq
    → get_task ready now s ≡ ok (some t, s')
    → NoneBetter (may_run ready s.queue s.tables) t s'.queue.sq × IsSorted s'.queue.sq
unfolding runs_before
get_task_best ready now s s' t sorted e =
    let d = get_task-Dispatched ready now s s' t e in
    let r =
      rest_lem (may_run ready s.queue s.tables) d.first.front d.task d.first.back d.first.skipped
        (rw d.first.whole at sorted) in
    rw (d.handed, d.first.left) r
