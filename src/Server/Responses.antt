-- ===== src/Server/Responses.antt =====
-- `SendPushResponse` and `SendPullResponse` of deep_inc/server/server.cc.
use deep_inc.Base.{
  ℕ, true, none, some, List, [], ◌∷◌, ◌++◌, take, update, Result, ok, check_failed, or_fail, ◌>>=◌,
}
use deep_inc.Server.State.{Deps, Server, Meta, Pairs, no_pairs, encode_key, deref}

abbrev pub respond : {C : Type 0} → Server C → Meta → Pairs → Server C
respond s m p = record s { outbox = s.outbox ++ record { to = m; pairs = p } ∷ [] }

-- The empty answer of a key is made once and used again.
unfoldable pub send_push_response : {C : Type 0} → Server C → ℕ → Meta → Server C
send_push_response s key m =
    respond (record s { push_response_map = update s.push_response_map key true }) m no_pairs

-- The answer points into the merged array, so it holds what that array holds when it is sent. The keys
-- of an answer are set when it is first made.
unfoldable pub send_pull_response :
    (d : Deps) → Server d.Compressor → ℕ → Meta → Result (Server d.Compressor)
send_pull_response d s key m = do
  let merged = (s.update_buf key).merged
  p ← or_fail merged.tensor check_failed
  let vals = take merged.len (deref s p)
  let keys : List ℕ = elim (s.pull_response_map key) [
    | none ↦ encode_key d key ∷ []
    | some r ↦ r.keys
  ]
  let r : Pairs = record { keys = keys; vals = vals; lens = merged.len ∷ [] }
  ok (respond (record s { pull_response_map = update s.pull_response_map key (some r) }) m r)
