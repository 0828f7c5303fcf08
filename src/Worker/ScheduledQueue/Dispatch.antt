-- ===== src/Worker/ScheduledQueue/Dispatch.antt =====
-- Which task `getTask` hands out, and what else it changes.
use deep_inc.Base.{
  ℕ, ◌-◌, ◌<◌, ◌≤◌, ◌∙◌, All-map, Option, ◌≡◌, ◌≢◌, refl, ap, Bool, true, false, if◌then◌else◌, inl,
  inr, none, some, List, [], ◌∷◌, ◌++◌, All, ok, arith, Bool-cases, Option-cases,
}
use deep_inc.Worker.State.{Task}
use deep_inc.Worker.ReadyTable.{ReadyTable, is_key_ready, clear_ready_count}
use deep_inc.Worker.ScheduledQueue.{
  ScheduledQueue, QueueState, take_first, may_run, hand_out, get_task, clear_table, event_ready,
  has_credit, key_ready,
}

-- How a list splits at its first element that passes a test.
pub record IsFirst {ℓ} {A : Type ℓ} (p : A → Bool) (ts : List A) (t : A) (rest : List A)
    : Type ℓ where
  pub front : List A
  pub back : List A
  pub whole : ts ≡ front ++ t ∷ back
  pub left : rest ≡ front ++ back
  pub skipped : All (λ u. p u ≡ false) front
  pub passes : p t ≡ true

module _ {ℓ} {A : Type ℓ} (p : A → Bool) where
  take_first-some :
      (ts : List A) (t : A) (rest : List A) → take_first p ts ≡ some (t, rest) → IsFirst p ts t rest
  unfolding take_first
  take_first-some [] t rest e = cc
  take_first-some (u ∷ us) t rest e = elim (Bool-cases (p u)) [
    | inl hit ↦ record {
      front = [];
      back = us;
      whole = ground arith;
      left = ground arith;
      skipped = tt;
      passes = ground arith;
    }
    | inr miss ↦ elim (Option-cases (take_first p us)) [
      | inl e' ↦ ground arith
      | inr ((w, r), e') ↦
          let ih = take_first-some us w r e' in
          record {
            front = u ∷ ih.front;
            back = ih.back;
            whole = ground (arith, ih.whole);
            left = ground (arith, ih.left);
            skipped = (miss, ih.skipped);
            passes = ground (arith, ih.passes);
          }
    ]
  ]

  take_first-none : (ts : List A) → take_first p ts ≡ none → All (λ u. p u ≡ false) ts
  unfolding take_first
  take_first-none [] e = tt
  take_first-none (u ∷ us) e = elim (Option-cases (take_first p us)) [
    | inl e' ↦ (ground arith, take_first-none us e')
    | inr (r, e') ↦ ground arith
  ]

  take_first-eq-none : (ts : List A) → All (λ u. p u ≡ false) ts → take_first p ts ≡ none
  unfolding take_first
  take_first-eq-none [] all = refl
  take_first-eq-none (u ∷ us) all = ground (arith, take_first-eq-none us all.1)

-- What a task leaves behind when it is handed out.
pub hand_out_lem :
    (now : ℕ) (s s' : QueueState) (t t' : Task) (rest : List Task)
    → hand_out now s t rest ≡ ok (some t', s')
    → (t' ≡ record t { ready_event = none })
      × (s'.queue ≡ record (s.queue) { sq = rest })
      × (s'.tables ≡ s.tables)
unfolding hand_out
hand_out_lem now s s' t t' rest e = ground arith

hand_out-ne-none :
    (now : ℕ) (s s' : QueueState) (t : Task) (rest : List Task)
    → hand_out now s t rest ≢ ok (none, s')
unfolding hand_out
hand_out-ne-none now s s' t rest e = ground arith

-- Why a task may not run: its event has not fired, the credits do not cover it, or its key is not
-- ready in the queue's table.
pub data Blocked (ready : ℕ → Bool) (s : QueueState) (t : Task) : Type 0 where
  waits : (e : ℕ) → t.ready_event ≡ some e → ready e ≡ false → Blocked ready s t
  no_credit : s.queue.is_scheduled ≡ true → s.queue.credits < t.len → Blocked ready s t
  not_announced :
      (i : ℕ)
      → s.queue.rt ≡ some i
      → (s.tables i).counts t.key ≢ (s.tables i).ready_count
      → Blocked ready s t

-- That none of the three holds.
pub record IsRunnable (ready : ℕ → Bool) (s : QueueState) (t : Task) : Type 0 where
  pub event : (e : ℕ) → t.ready_event ≡ some e → ready e ≡ true
  pub credit : s.queue.is_scheduled ≡ true → t.len ≤ s.queue.credits
  pub announced :
      (i : ℕ) → s.queue.rt ≡ some i → (s.tables i).counts t.key ≡ (s.tables i).ready_count

may_run-IsRunnable :
    (ready : ℕ → Bool) (s : QueueState) (t : Task)
    → may_run ready s.queue s.tables t ≡ true
    → IsRunnable ready s t
unfolding may_run event_ready has_credit key_ready is_key_ready
may_run-IsRunnable ready s t passes = record {
  event = λ e is. ground (arith, passes, is);
  credit = λ on. ground (arith, passes, on);
  announced = λ i is. ground (arith, passes, is);
}

may_run-Blocked :
    (ready : ℕ → Bool) (s : QueueState) (t : Task)
    → may_run ready s.queue s.tables t ≡ false
    → Blocked ready s t
unfolding may_run event_ready has_credit key_ready is_key_ready
may_run-Blocked ready s t fails = elim (Bool-cases (event_ready ready t)) [
  | inr closed ↦ elim (Option-cases t.ready_event) [
    | inl open_event ↦ absurd (ground (arith, closed, open_event))
    | inr (e, is) ↦ Blocked.waits e is (ground (arith, closed, is))
  ]
  | inl fired ↦ elim (Bool-cases (has_credit s.queue t)) [
    | inr short ↦ elim (Bool-cases s.queue.is_scheduled) [
      | inl on ↦ Blocked.no_credit on (ground (arith, short, on))
      | inr off ↦ absurd (ground (arith, short, off))
    ]
    | inl covered ↦ elim (Option-cases s.queue.rt) [
      | inl no_table ↦ absurd (ground (arith, fails, fired, covered, no_table))
      | inr (i, is) ↦ Blocked.not_announced i is (ground (arith, fails, fired, covered, is))
    ]
  ]
]

clear_table_self :
    (rt : Option ℕ) (tables : ℕ → ReadyTable) (key i : ℕ)
    → rt ≡ some i
    → (clear_table rt tables key i).counts key ≡ 0
unfolding clear_table clear_ready_count
clear_table_self rt tables key i is = ground (arith, is)

clear_table-other :
    (rt : Option ℕ) (tables : ℕ → ReadyTable) (key i j : ℕ)
    → rt ≡ some i
    → i ≢ j
    → clear_table rt tables key j ≡ tables j
unfolding clear_table
clear_table-other rt tables key i j is apart = ground (arith, is, apart)

module _ (ready : ℕ → Bool) (now : ℕ) (s s' : QueueState) where
  -- What `getTask` did when it handed out a task. The task was the first in the queue whose event has
  -- fired, whose length the credits cover if the queue is scheduled, and whose key is ready in the
  -- queue's table; it leaves the queue without its event, its length is taken from the credits of a
  -- scheduled queue, and its ready count is cleared.
  pub record Dispatched (t' : Task) : Type 0 where
    pub task : Task
    pub first : IsFirst (may_run ready s.queue s.tables) s.queue.sq task s'.queue.sq
    pub handed : t' ≡ record task { ready_event = none }
    pub queue_after : s'.queue ≡ record (s.queue) {
      sq = s'.queue.sq;
      credits = if s.queue.is_scheduled then s.queue.credits - t'.len else s.queue.credits;
    }
    pub tables_after : s'.tables ≡ clear_table s.queue.rt s.tables t'.key
    pub runnable : IsRunnable ready s task
    pub passed_over : All (Blocked ready s) first.front
    pub cleared : (i : ℕ) → s.queue.rt ≡ some i → (s'.tables i).counts t'.key ≡ 0
    pub others : (i j : ℕ) → s.queue.rt ≡ some i → i ≢ j → s'.tables j ≡ s.tables j

  -- A task that `getTask` hands out was in the queue: its event had fired, the credits covered it
  -- if the queue is scheduled, and its key had all its announcements in the queue's ready table, if
  -- there is one; each task before it failed one of these; it comes without its event; the queue
  -- has the other tasks in their order and, if it is scheduled, the credits less the task's length;
  -- the count of its key is 0 in the queue's table, and the other tables have not changed.
  pub get_task-Dispatched : (t' : Task) → get_task ready now s ≡ ok (some t', s') → Dispatched t'
  unfolding get_task
  get_task-Dispatched t' e =
      elim (Option-cases (take_first (may_run ready s.queue s.tables) s.queue.sq)) [
        | inl none_left ↦ ground arith
        | inr ((t, rest), found) ↦
            let out = hand_out_lem now _ s' t t' rest (rw (found, get_task) at e) in
            let first : IsFirst (may_run ready s.queue s.tables) s.queue.sq t s'.queue.sq =
              rw (ap (λ (q : ScheduledQueue). q.sq) out.1) (take_first-some _ _ t rest found) in
            let after : s'.tables ≡ clear_table s.queue.rt s.tables t'.key = rw out.0 out.2 in
            record {
              task = t;
              first = first;
              handed = out.0;
              queue_after = rw out.0 (ground (arith, out.1));
              tables_after = after;
              runnable = may_run-IsRunnable ready s t first.passes;
              passed_over =
                  All-map _ (λ u fails. may_run-Blocked ready s u fails) first.front first.skipped;
              cleared = λ i is.
                  ap (λ (ts : ℕ → ReadyTable). (ts i).counts t'.key) after
                  ∙ clear_table_self s.queue.rt s.tables t'.key i is;
              others = λ i j is apart.
                  ap (λ (ts : ℕ → ReadyTable). ts j) after
                  ∙ clear_table-other s.queue.rt s.tables t'.key i j is apart;
            }
      ]

  -- When `getTask` returns no task, no task of the queue may run, and nothing has changed.
  pub get_task-none :
      get_task ready now s ≡ ok (none, s')
      → All (λ u. may_run ready s.queue s.tables u ≡ false) s.queue.sq × (s' ≡ s)
  unfolding get_task
  get_task-none e = elim (Option-cases (take_first (may_run ready s.queue s.tables) s.queue.sq)) [
    | inl none_left ↦ (take_first-none _ _ none_left, ground arith)
    | inr ((t, rest), found) ↦ absurd (hand_out-ne-none now _ s' t rest (rw (found, get_task) at e))
  ]
