-- ===== src/Worker/ScheduledQueue/Order.antt =====
-- The order that `addTask` keeps in a scheduled queue.
use mathlib.Core.List.{Perm}
use mathlib.Core.List.Perm
use deep_inc.Base.{◌≡◌, ◌⊎◌, true, false, List, [], ◌∷◌, ◌++◌, All, ok, arith, Bool-cases, inl, inr}
use deep_inc.Worker.State.{Task}
use deep_inc.Worker.ScheduledQueue.{ScheduledQueue, runs_before, insert_task, sort_tasks, add_task}

-- No task stands behind one that it should run before.
abbrev pub IsSorted : List Task → Type 0
IsSorted [] = Unit
IsSorted (t ∷ ts) = All (λ u. runs_before u t ≡ false) ts × IsSorted ts

runs_before_trans :
    (a b c : Task) → runs_before b a ≡ false → runs_before c b ≡ false → runs_before c a ≡ false
unfolding runs_before
runs_before_trans a b c p q = ground arith

runs_before_asym : (a b : Task) → runs_before a b ≡ true → runs_before b a ≡ false
unfolding runs_before
runs_before_asym a b p = ground arith

All-weaken :
    (t u : Task) (us : List Task)
    → runs_before u t ≡ false
    → All (λ v. runs_before v u ≡ false) us
    → All (λ v. runs_before v t ≡ false) us
All-weaken t u [] h all = tt
All-weaken t u (v ∷ us) h all = (runs_before_trans t u v h all.0, All-weaken t u us h all.1)

All-insert_task :
    (t u : Task) (us : List Task)
    → runs_before t u ≡ false
    → All (λ v. runs_before v u ≡ false) us
    → All (λ v. runs_before v u ≡ false) (insert_task t us)
unfolding insert_task
All-insert_task t u [] h all = (h, tt)
All-insert_task t u (v ∷ us) h all = ground (arith, All-insert_task t u us h all.1)

insert_task-IsSorted : (t : Task) (ts : List Task) → IsSorted ts → IsSorted (insert_task t ts)
unfolding insert_task
insert_task-IsSorted t [] s = (tt, tt)
insert_task-IsSorted t (u ∷ us) s = elim (Bool-cases (runs_before u t)) [
  | inl later ↦
      rw later
        (All-insert_task t u us (runs_before_asym u t later) s.0, insert_task-IsSorted t us s.1)
  | inr now ↦ rw now ((now, All-weaken t u us now s.0), s)
]

sort_tasks-IsSorted : (ts : List Task) → IsSorted (sort_tasks ts)
unfolding sort_tasks
sort_tasks-IsSorted [] = tt
sort_tasks-IsSorted (t ∷ ts) = insert_task-IsSorted t (sort_tasks ts) (sort_tasks-IsSorted ts)

insert_task-perm : (t : Task) (ts : List Task) → Perm (insert_task t ts) (t ∷ ts)
unfolding insert_task
insert_task-perm t [] = Perm.refl (t ∷ [])
insert_task-perm t (u ∷ us) = elim (Bool-cases (runs_before u t)) [
  | inl later ↦ rw later (Perm.trans (Perm.cons u (insert_task-perm t us)) (Perm.swap t u us))
  | inr now ↦ rw now (Perm.refl (t ∷ u ∷ us))
]

sort_tasks-perm : (ts : List Task) → Perm (sort_tasks ts) ts
unfolding sort_tasks
sort_tasks-perm [] = Perm.refl []
sort_tasks-perm (t ∷ ts) =
    Perm.trans (insert_task-perm t (sort_tasks ts)) (Perm.cons t (sort_tasks-perm ts))

-- When `addTask` returns, the queue has exactly its tasks and the new one: sorted if the queue is
-- scheduled, whatever the order was, and otherwise the new one at the end of the old list. Nothing
-- but the list has changed.
pub add_task_lem :
    (q q' : ScheduledQueue) (t : Task)
    → add_task q t ≡ ok q'
    → Perm q'.sq (q.sq ++ t ∷ [])
      × (((q.is_scheduled ≡ true) × IsSorted q'.sq)
          ⊎ ((q.is_scheduled ≡ false) × (q'.sq ≡ q.sq ++ t ∷ [])))
      × (q' ≡ record q { sq = q'.sq })
unfolding add_task
add_task_lem q q' t e = elim (Bool-cases q.is_scheduled) [
  | inl on ↦
      let sorted : q'.sq ≡ sort_tasks (q.sq ++ t ∷ []) = ground arith in
      (
        rw sorted (sort_tasks-perm (q.sq ++ t ∷ [])),
        inl (on, rw sorted (sort_tasks-IsSorted (q.sq ++ t ∷ []))),
        ground arith,
      )
  | inr off ↦
      let same : q'.sq ≡ q.sq ++ t ∷ [] = ground arith in
      (rw same (Perm.refl (q.sq ++ t ∷ [])), inr (off, same), ground arith)
]
