-- ===== src/Worker/ScheduledQueue/Gate.antt =====
-- The ready table in front of a queue: how many announcements of a key let its task through.
use deep_inc.Base.{
  ℕ, zero, suc, ◌+◌, ◌≤◌, ◌<◌, ◌≡◌, refl, ap, Bool, true, some, ◌==◌, Result, ok, fail,
  check_failed, ◌>>=◌, arith, update, update_self, lt→ltb, dec_lt,
}
use deep_inc.Common.{compress, push}
use deep_inc.Worker.State.{Task}
use deep_inc.Worker.ReadyTable.{
  ReadyTable, add_ready_count, is_key_ready, clear_ready_count, set_ready_count,
}
use deep_inc.Worker.ScheduledQueue.{
  QueueState, Device, get_task, may_run, key_ready, clear_table, table_of, reset, push_table,
}
use deep_inc.Worker.ScheduledQueue.Dispatch.{get_task-Dispatched}

-- `n` announcements of a key.
pub announce : ℕ → ReadyTable → ℕ → Result ReadyTable
announce zero t key = ok t
announce (suc n) t key = add_ready_count t key >>= λ r. announce n r.1 key

abbrev bumped : ReadyTable → ℕ → ReadyTable
bumped t key = record t { counts = update t.counts key (t.counts key + 1) }

add_ready_count_within :
    (t : ReadyTable) (key : ℕ)
    → t.counts key < t.ready_count
    → add_ready_count t key ≡ ok (t.counts key + 1, bumped t key)
unfolding add_ready_count
add_ready_count_within t key h = rw (lt→ltb _ _ h)

add_ready_count_full :
    (t : ReadyTable) (key : ℕ)
    → t.ready_count ≤ t.counts key
    → add_ready_count t key ≡ fail check_failed
unfolding add_ready_count
add_ready_count_full t key h = ground arith

bumped_self : (t : ReadyTable) (key : ℕ) → (bumped t key).counts key ≡ t.counts key + 1
bumped_self t key = update_self t.counts key (t.counts key + 1)

announce_within :
    (n : ℕ) (t : ReadyTable) (key : ℕ)
    → t.counts key + n ≤ t.ready_count
    → (t' : ReadyTable) × (announce n t key ≡ ok t')
      × (t'.counts key ≡ t.counts key + n)
      × (t'.ready_count ≡ t.ready_count)
unfolding announce
announce_within zero t key h = (t, refl, omega arith, refl)
announce_within (suc n) t key h =
    let b = bumped_self t key in
    let ih = announce_within n (bumped t key) key (omega arith) in
    (ih.0, rw (add_ready_count_within t key (omega arith)) ih.1, omega (arith, ih.2), ih.3)

announce_beyond :
    (n : ℕ) (t : ReadyTable) (key : ℕ)
    → t.counts key ≤ t.ready_count
    → t.ready_count < t.counts key + n
    → announce n t key ≡ fail check_failed
unfolding announce
announce_beyond zero t key le h = absurd (omega arith)
announce_beyond (suc n) t key le h = elim (dec_lt (t.counts key) t.ready_count) [
  | yes room ↦
      let b = bumped_self t key in
      rw (add_ready_count_within t key room)
        (announce_beyond n (bumped t key) key (omega arith) (omega arith))
  | no full ↦ rw (add_ready_count_full t key (omega arith))
]

may_run-is_key_ready :
    (ready : ℕ → Bool) (s : QueueState) (t : Task) (i : ℕ)
    → s.queue.rt ≡ some i
    → may_run ready s.queue s.tables t ≡ true
    → (s.tables i).counts t.key ≡ (s.tables i).ready_count
unfolding may_run key_ready is_key_ready
may_run-is_key_ready ready s t i gated passes = ground arith

cleared :
    (tables : ℕ → ReadyTable) (i key : ℕ)
    → ((clear_table (some i) tables key i).counts key ≡ 0)
      × ((clear_table (some i) tables key i).ready_count ≡ (tables i).ready_count)
unfolding clear_table clear_ready_count
cleared tables i key = ground (arith)

dispatched_table :
    (ready : ℕ → Bool) (now : ℕ) (s s' : QueueState) (t : Task) (i : ℕ)
    → s.queue.rt ≡ some i
    → get_task ready now s ≡ ok (some t, s')
    → ((s.tables i).counts t.key ≡ (s.tables i).ready_count)
      × ((s'.tables i).counts t.key ≡ 0)
      × ((s'.tables i).ready_count ≡ (s.tables i).ready_count)
dispatched_table ready now s s' t i gated e =
    let d = get_task-Dispatched ready now s s' t e in
    let c = cleared s.tables i t.key in
    let k = ap (λ (u : Task). u.key) d.handed in
    (
      rw k (may_run-is_key_ready ready s d.task i gated d.first.passes),
      rw (d.tables_after, gated) c.0,
      rw (d.tables_after, gated) c.1,
    )

-- When a queue with a ready table hands out a task, the key had all its announcements; and
-- afterwards any number of announcements of the key up to the number wanted succeeds, and the key
-- is ready again exactly when they are as many as wanted.
pub gate_reopens :
    (ready : ℕ → Bool) (now : ℕ) (s s' : QueueState) (t : Task) (i n : ℕ)
    → s.queue.rt ≡ some i
    → get_task ready now s ≡ ok (some t, s')
    → n ≤ (s.tables i).ready_count
    → ((s.tables i).counts t.key ≡ (s.tables i).ready_count)
      × ((u : ReadyTable) × (announce n (s'.tables i) t.key ≡ ok u)
          × (is_key_ready u t.key ≡ (n == (s.tables i).ready_count)))
unfolding is_key_ready
gate_reopens ready now s s' t i n gated e le =
    let d = dispatched_table ready now s s' t i gated e in
    let a = announce_within n (s'.tables i) t.key (omega arith) in
    (d.0, (a.0, a.1, ground (arith, a.2, a.3)))

-- After a queue with a ready table has handed out a task, more announcements of its key than the
-- number wanted fail a check.
pub gate_overflows :
    (ready : ℕ → Bool) (now : ℕ) (s s' : QueueState) (t : Task) (i n : ℕ)
    → s.queue.rt ≡ some i
    → get_task ready now s ≡ ok (some t, s')
    → (s.tables i).ready_count < n
    → announce n (s'.tables i) t.key ≡ fail check_failed
gate_overflows ready now s s' t i n gated e lt =
    let d = dispatched_table ready now s s' t i gated e in
    announce_beyond n (s'.tables i) t.key (omega arith) (omega arith)

-- On a root device, once the queue of COMPRESS has handed out a task and the key has been reset to
-- the number wanted in the queue of PUSH, which sees the same ready tables, the task passes the
-- ready table of PUSH.
pub compress_handover :
    (dev : Device) (ready : ℕ → Bool) (now : ℕ) (s s' p : QueueState) (t : Task)
    → dev.is_root_device ≡ true
    → s.queue.rt ≡ table_of dev compress
    → get_task ready now s ≡ ok (some t, s')
    → p.queue.rt ≡ table_of dev push
    → p.tables ≡ s'.tables
    → let n = (s.tables push_table).ready_count in
      key_ready p.queue (reset p t.key n).tables t ≡ true
unfolding table_of key_ready reset is_key_ready set_ready_count
compress_handover dev ready now s s' p t root rc e rp same =
    let d = dispatched_table ready now s s' t push_table (ground arith) e in ground arith
