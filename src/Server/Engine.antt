-- ===== src/Server/Engine.antt =====
-- `DeepIncServerEngineThread` of deep_inc/server/server.cc: one round of the loop of thread `i`. The
-- request handler runs between rounds or during one; what a round shares with it is under a mutex
-- (`flag_mu_`, `pullresp_mu_`) or belongs to a key whose pushes are over.
use deep_inc.Base.{
  ℕ, ◌+◌, Bool, true, false, leb, ◌==◌, if◌then◌else◌, Option, none, some, List, [], ◌∷◌, ◌++◌,
  contains, take, get_elem?, set, update, Result, ok, fail, check_failed, out_of_range,
  null_pointer, length, check, or_fail, ◌>>=◌, ◌>>◌,
}
use deep_inc.Server.State.{
  Deps, Server, Meta, Message, sum_recv, copy_first, all_recv, terminate, Flags, Ptr, compressed_of,
  copy, deref,
}
use deep_inc.Server.Queue.{wait_and_pop}
use deep_inc.Server.Responses.{send_pull_response}

-- `std::vector::operator[]`, undefined out of range.
abbrev pub at {ℓ} : {A : Type ℓ} → List A → ℕ → Result A
at xs i = or_fail (get_elem? xs i) out_of_range

-- The first use of a key's flags makes their entry.
unfoldable pub ensure_flags : Flags → Flags
ensure_flags f = elim f.is_push_finished [
  | none ↦ record f { is_push_finished = some false; pull_cnt = 0; seen_sender = [] }
  | some b ↦ f
]

-- A round of pulls is over: all flags of the key go back.
unfoldable pub end_round : Flags → Flags
end_round f = record f { is_push_finished = some false; pull_cnt = 0; seen_sender = [] }

abbrev pub is_finished : Flags → Bool
is_finished f = elim f.is_push_finished [ none ↦ false | some b ↦ b ]

-- A sender that has been answered.
unfoldable pub mark_served : Flags → ℕ → Flags
mark_served f sender = record f { pull_cnt = f.pull_cnt + 1; seen_sender = sender ∷ f.seen_sender }

module _ (d : Deps) where
  -- The loop over the waiting pulls of a key: `kept` are those that it has passed, oldest first.
  unfoldable pub serve_pulls :
      ℕ → List Meta → List Meta → Flags → Server d.Compressor → Result (Flags × Server d.Compressor)
  serve_pulls key kept [] f s = ok (record f { q_pull_reqmeta = kept }, s)
  serve_pulls key kept (m ∷ ms) f s =
      let skip = serve_pulls key (kept ++ m ∷ []) ms f s in
      let served = mark_served f m.sender in
      let go_on = λ (t : Server d.Compressor). serve_pulls key kept ms served t in
      if contains f.seen_sender m.sender
      then (if f.pull_cnt == d.num_workers
          then ok (record (end_round f) { q_pull_reqmeta = kept ++ m ∷ ms }, s)
          else skip)
      else (send_pull_response d s key m >>= λ t.
          if served.pull_cnt == d.num_workers
          then ok (record (end_round served) { q_pull_reqmeta = kept ++ ms }, t)
          else go_on t)

  -- The case `ALL_RECV`.
  unfoldable pub finish_push : ℕ → ℕ → Server d.Compressor → Result (Server d.Compressor)
  finish_push i key s = do
    row ← at s.flags i
    let f = record (ensure_flags (row key)) { is_push_finished = some true }
    (f', t) ← serve_pulls key [] f.q_pull_reqmeta f s
    ok (record t { flags = set t.flags i (update row key f') })

  abbrev pub put_store : Server d.Compressor → ℕ → List ℕ → Server d.Compressor
  put_store s key bytes = record s {
    store = update s.store key (record (s.store key) { tensor = some bytes });
  }

  abbrev pub merge : Server d.Compressor → ℕ → Ptr → ℕ → Server d.Compressor
  merge s key p len =
      let u = s.update_buf key in
      record s {
        update_buf =
            update s.update_buf key
              (record u { merged = record (u.merged) { tensor = some p; len = len } });
      }

  -- Before the `switch`: `ALL_RECV` publishes the merged array, compressed if the key has a
  -- compressor; any other message of such a key is decompressed. Returned are the bytes at `msg.src`.
  unfoldable pub prepare :
      Message → Ptr → Server d.Compressor → Result (List ℕ × Server d.Compressor)
  prepare m src s = elim (s.compressor_map m.key) [
    | none ↦ elim m.ops [
      | all_recv ↦ ok (deref s src, merge s m.key src m.len)
      | _ ↦ ok (deref s src, s)
    ]
    | some c ↦ elim m.ops [
      | all_recv ↦
          let (out, c') = d.compress c (take m.len (deref s src)) in
          ok (
            deref s src,
            merge
                (record s {
                  compressor_map = update s.compressor_map m.key (some c');
                  compressor_buf = update s.compressor_buf m.key out;
                })
                m.key (compressed_of m.key) (length out),
          )
      | _ ↦ do
        n ← at m.sarray.lens 0
        check (leb n m.len)
        let (out, c') = d.decompress c (take n (deref s src))
        ok (
          out,
          record s {
            compressor_map = update s.compressor_map m.key (some c');
            compressor_buf = update s.compressor_buf m.key out;
          },
        )
    ]
  ]

  -- A case of the `switch` that writes to the store of a key.
  unfoldable pub write_store :
      ℕ → (List ℕ → Result (List ℕ)) → Server d.Compressor → Result (Server d.Compressor)
  write_store key f s = do
    bytes ← or_fail (s.store key).tensor null_pointer
    bytes' ← f bytes
    ok (put_store s key bytes')

  unfoldable pub process : ℕ → Message → Server d.Compressor → Result (Server d.Compressor)
  process i m s = do
    dst ← or_fail m.dst check_failed
    src ← or_fail m.src check_failed
    (bytes, t) ← prepare m src s
    elim m.ops [
      | copy_first ↦ write_store dst (λ old. copy old bytes m.len) t
      | all_recv ↦ finish_push i m.key t
      | sum_recv ↦ write_store dst (λ old. d.sum m.type.dtype old bytes m.len) t
      | terminate ↦ fail check_failed
    ]

  -- One round: `none` while the thread waits for a message; the flag says whether the loop goes on.
  unfoldable pub engine_step :
      ℕ → Server d.Compressor → Result (Option (Bool × Server d.Compressor))
  engine_step i s = do
    q ← at s.engine_queues i
    elim (wait_and_pop q) [
      | none ↦ ok none
      | some (m, q') ↦
          let t = record s { engine_queues = set s.engine_queues i q' } in
          elim m.ops [
            | terminate ↦ ok (some (false, t))
            | _ ↦ process i m t >>= λ u. ok (some (true, u))
          ]
    ]
