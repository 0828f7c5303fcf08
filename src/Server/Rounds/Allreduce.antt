-- ===== src/Server/Rounds/Allreduce.antt =====
-- A round for one key in a server as it is started: the workers push, and the engine adds up.
use deep_inc.Base.{ℕ, ◌≡◌, none, some, List, []}
use deep_inc.Server.State.{Deps, Server, PriorityQueue}
use deep_inc.Server.Rounds.Enqueue.{IsReady}

-- A key between two rounds: it has its store, no push is buffered, its thread has an empty queue, and
-- it has no compressor. The vectors of the flags are as `start_server` leaves them.
pub record AtRest (d : Deps) (key tid : ℕ) (s : Server d.Compressor) (q : PriorityQueue)
    (old : List ℕ) : Type 0 where
  pub ready : IsReady d key tid s q
  pub idle : q.queue ≡ []
  pub stored : (s.store key).tensor ≡ some old
  pub none_buffered : (s.update_buf key).request ≡ []
  pub plain : s.compressor_map key ≡ none
  pub unsized : s.flags ≡ []
