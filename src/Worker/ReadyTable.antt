-- ===== src/Worker/ReadyTable.antt =====
-- deep_inc/common/ready_table.h and ready_table.cc: how many devices have announced a key. Every
-- caller sets counts that are not negative, so a count is a natural number.
use deep_inc.Base.{ℕ, ◌+◌, Bool, ltb, ◌==◌, update, Result, ok, check, ◌>>◌}

-- A missing key reads as 0, as `operator[]` makes it.
pub record ReadyTable : Type 0 where
  pub counts : ℕ → ℕ
  pub ready_count : ℕ

unfoldable pub create : ℕ → ReadyTable
create n = record { counts = λ _. 0; ready_count = n }

unfoldable pub is_key_ready : ReadyTable → ℕ → Bool
is_key_ready t key = t.counts key == t.ready_count

-- The new count is returned beside the table.
unfoldable pub add_ready_count : ReadyTable → ℕ → Result (ℕ × ReadyTable)
add_ready_count t key = do
  check (ltb (t.counts key) t.ready_count)
  let n = t.counts key + 1
  ok (n, record t { counts = update t.counts key n })

unfoldable pub set_ready_count : ReadyTable → ℕ → ℕ → ReadyTable
set_ready_count t key cnt = record t { counts = update t.counts key cnt }

unfoldable pub clear_ready_count : ReadyTable → ℕ → ReadyTable
clear_ready_count t key = record t { counts = update t.counts key 0 }
