-- ===== src/Worker/ScheduledQueue/Credits.antt =====
-- The credits of a scheduled queue over any interleaving of its methods.
use deep_inc.Base.{
  ℕ, Bool, ◌+◌, ◌-◌, ◌^◌, ◌≤◌, ◌<◌, ◌≡◌, refl, ap, true, some, List, [], ◌∷◌, ◌++◌, map, sum, ok,
  arith,
}
use deep_inc.Worker.State.{Task}
use deep_inc.Worker.ReadyTable.{ReadyTable}
use deep_inc.Worker.ScheduledQueue.{
  ScheduledQueue, QueueState, add_task, get_task, report_finish, may_run, has_credit,
}
use deep_inc.Worker.ScheduledQueue.Dispatch.{get_task-Dispatched}

-- A queue with the tasks that it has handed out and whose end was not reported yet.
pub record Traffic : Type 0 where
  pub state : QueueState
  pub running : List Task

-- One call: a task comes in, one is handed out, one of less than 2 ^ 31 bytes is finished, or a
-- device announces keys.
pub data Call (s : Traffic) : Traffic → Type 0 where
  adds :
      (t : Task) {q : ScheduledQueue}
      → add_task s.state.queue t ≡ ok q
      → Call s (record s { state = record (s.state) { queue = q } })
  gets :
      (ready : ℕ → Bool) (now : ℕ) {t : Task} {u : QueueState}
      → get_task ready now s.state ≡ ok (some t, u)
      → Call s (record { state = u; running = t ∷ s.running })
  finishes :
      (front : List Task) (t : Task) (back : List Task)
      → s.running ≡ front ++ t ∷ back
      → t.len < 2 ^ 31
      → Call s (record {
        state = record (s.state) { queue = report_finish s.state.queue t.len };
        running = front ++ back;
      })
  announces :
      (tables : ℕ → ReadyTable) → Call s (record s { state = record (s.state) { tables = tables } })

pub data Calls (s : Traffic) : Traffic → Type 0 where
  here : Calls s s
  next : {t u : Traffic} → Calls s t → Call t u → Calls s u

abbrev pub running_len : List Task → ℕ
running_len ts = sum (map (λ (t : Task). t.len) ts)

pub record HasCredits (total : ℕ) (s : Traffic) : Type 0 where
  pub scheduled : s.state.queue.is_scheduled ≡ true
  pub small : total < 2 ^ 64
  pub kept : s.state.queue.credits + running_len s.running ≡ total

running_len-remove :
    (front : List Task) (t : Task) (back : List Task)
    → running_len (front ++ t ∷ back) ≡ t.len + running_len (front ++ back)
running_len-remove [] t back = refl
running_len-remove (u ∷ front) t back = omega (arith, running_len-remove front t back)

may_run-le-credits :
    (ready : ℕ → Bool) (s : QueueState) (t : Task)
    → may_run ready s.queue s.tables t ≡ true
    → s.queue.is_scheduled ≡ true
    → t.len ≤ s.queue.credits
unfolding may_run has_credit
may_run-le-credits ready s t passes on = ground arith

Call-HasCredits : (total : ℕ) {s u : Traffic} → Call s u → HasCredits total s → HasCredits total u
unfolding add_task report_finish
Call-HasCredits total {s} (adds t e) c = record {
  scheduled = ground arith;
  small = c.small;
  kept = ground arith;
}
Call-HasCredits total {s} (gets ready now {t} {u} e) c =
    let d = get_task-Dispatched ready now s.state u t e in
    let fits = may_run-le-credits ready s.state d.task d.first.passes c.scheduled in
    record {
      scheduled = ground (arith, d.queue_after);
      small = c.small;
      kept = ground (arith, d.queue_after, d.handed, fits);
    }
Call-HasCredits total {s} (finishes front t back e short) c = record {
  scheduled = ground arith;
  small = c.small;
  kept = ground (arith, running_len-remove front t back, ap running_len e);
}
Call-HasCredits total (announces tables) c = record {
  scheduled = c.scheduled;
  small = c.small;
  kept = c.kept;
}

Calls-HasCredits : (total : ℕ) {s u : Traffic} → Calls s u → HasCredits total s → HasCredits total u
Calls-HasCredits total here c = c
Calls-HasCredits total (next cs one) c = Call-HasCredits total one (Calls-HasCredits total cs c)

-- A scheduled queue that starts with nothing running never has more bytes running than the credits
-- it started with, below 2 ^ 64, in whatever order tasks are added, handed out and, if they have
-- fewer than 2 ^ 31 bytes, finished and ready tables change; and the credits that are left are
-- exactly what is not running.
pub running_len-le-credits :
    (s u : Traffic)
    → s.running ≡ []
    → s.state.queue.is_scheduled ≡ true
    → s.state.queue.credits < 2 ^ 64
    → Calls s u
    → (running_len u.running ≤ s.state.queue.credits)
      × (u.state.queue.credits ≡ s.state.queue.credits - running_len u.running)
running_len-le-credits s u idle on small calls =
    let none_running : running_len s.running ≡ 0 = ap running_len idle in
    let c =
      Calls-HasCredits s.state.queue.credits calls
        (record { scheduled = on; small = small; kept = omega arith }) in
    omega (arith, c.kept)
