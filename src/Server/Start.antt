-- ===== src/Server/Start.antt =====
-- `init_global_env` and `start_server` of deep_inc/server/server.cc: the settings, the state in which
-- the first request finds the server, and how its threads end. The settings of the log are left out.
use deep_inc.Base.{
  ℕ, false, not, ◌==◌, if◌then◌else◌, none, [], map, replicate, ◌≡◌, fail, out_of_range, arith,
}
use deep_inc.Server.State.{Deps, Server, Config, Meta, Message, terminate}
use deep_inc.Server.Queue
use deep_inc.Server.Engine.{finish_push}
use deep_inc.Server.Handler.{sync_pull}

-- The environment: `ENABLE_ASYNC`, `SERVER_ENGINE_THREAD` and `SERVER_ENABLE_SCHEDULE`, or their defaults 0, 4 and 0.
pub record Environment : Type 0 where
  pub enable_async : ℕ
  pub server_engine_thread : ℕ
  pub server_enable_schedule : ℕ

unfoldable pub init_global_env : Environment → Config
init_global_env e = record {
  sync_mode = e.enable_async == 0;
  engine_thread_num = e.server_engine_thread;
}

-- The state up to the registration of the handler. The vectors of the flags are never filled.
unfoldable pub start_server : {C : Type 0} → Environment → Server C
start_server e =
    let c = init_global_env e in
    record {
      config = c;
      store = λ _. record { tensor = none; len = 0; dtype = 0 };
      update_buf = λ _. record {
        request = [];
        merged = record { tensor = none; len = 0; dtype = 0; tmp_sarray = none };
      };
      push_response_map = λ _. false;
      pull_response_map = λ _. none;
      compressor_map = λ _. none;
      compressor_buf = λ _. [];
      hash_cache = λ _. none;
      acc_load = replicate c.engine_thread_num 0;
      engine_queues =
          if c.sync_mode
          then replicate c.engine_thread_num (Queue.create (not (e.server_enable_schedule == 0)))
          else [];
      flags = [];
      timestamp = 0;
      outbox = [];
    }

-- At the end every queue gets a message that ends its thread; only the operation of the message is set.
unfoldable pub stop_threads : {C : Type 0} → Message → Server C → Server C
stop_threads msg s = record s {
  engine_queues = map (λ q. Queue.push q (record msg { ops = terminate })) s.engine_queues;
}

-- In a server whose flags are still those that `start_server` leaves, every pull in the synchronous
-- mode that comes to the flags, and every end of a key's pushes in the engine, reads outside the
-- vectors of the flags.
pub start_server-out_of_range :
    (d : Deps) (e : Environment) (s : Server d.Compressor) (tid key : ℕ) (m : Meta)
    → s.flags ≡ (start_server {C = d.Compressor} e).flags
    → (sync_pull d tid key m s ≡ fail out_of_range) × (finish_push d tid key s ≡ fail out_of_range)
unfolding start_server sync_pull finish_push
start_server-out_of_range d e s tid key m same = (ground (arith, same), ground (arith, same))
