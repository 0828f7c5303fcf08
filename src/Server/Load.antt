-- ===== src/Server/Load.antt =====
-- `GetThreadID` of deep_inc/server/server.cc: the engine thread of a key, which a first push gives to
-- the thread with the least load so far.
pub mod Balance
use deep_inc.Base.{
  ℕ, zero, suc, ◌+◌, ◌%◌, ◌^◌, ◌-◌, ltb, ◌==◌, Bool, if◌then◌else◌, Option, none, some, List, [],
  ◌∷◌, length, set, get_or, update, Result, ok, fail, check_failed, check, or_fail, ◌>>=◌, ◌>>◌,
}

-- `hash_cache_` and `acc_load_`, with `engine_thread_num_`.
pub record Loads : Type 0 where
  pub hash_cache : ℕ → Option ℕ
  pub acc_load : List ℕ
  pub engine_thread_num : ℕ

-- The loop over the loads, with the least load so far and where it was seen.
unfoldable pub min_index_from : List ℕ → ℕ → ℕ → Option ℕ → Option ℕ
min_index_from [] i min_load min_index = min_index
min_index_from (l ∷ ls) i min_load min_index =
    min_index_from ls (i + 1) (if ltb l min_load then l else min_load)
      (if ltb l min_load then some i else min_index)

unfoldable pub get_thread_id : Loads → ℕ → ℕ → Result (ℕ × Loads)
get_thread_id l key len = elim (l.hash_cache key) [
  | some tid ↦ ok (tid, l)
  | none ↦ do
    check (ltb 0 len)
    check (length l.acc_load == l.engine_thread_num)
    tid ← or_fail (min_index_from l.acc_load 0 (2 ^ 64 - 1) none) check_failed
    check (ltb tid l.engine_thread_num)
    ok (
      tid,
      record l {
        hash_cache = update l.hash_cache key (some tid);
        acc_load = set l.acc_load tid ((get_or l.acc_load tid 0 + len) % 2 ^ 64);
      },
    )
]
