-- ===== src/Server/Rounds/Pulls.antt =====
-- The pulls of a round: how the engine answers those that wait.
use mathlib.Core.List.{append_assoc, append-nil}
use deep_inc.Base.{
  ℕ, ◌+◌, ◌≡◌, refl, sym, ◌∙◌, ◌⊎◌, inl, inr, ◌==◌, if◌then◌else◌, none, some, List, [], ◌∷◌, ◌++◌,
  map, take, contains, update, update_self, Bool-cases, ok, arith,
}
use deep_inc.Server.State.{
  Deps, Server, Meta, Pairs, Response, Ptr, store_of, received, compressed_of, Flags, encode_key,
  deref,
}
use deep_inc.Server.Responses.{respond, send_pull_response}
use deep_inc.Server.Engine.{serve_pulls, mark_served, end_round}

-- The waiting pulls that the engine answers, in order: each sender that it has not seen in this
-- round, until all workers have their answer.
abbrev pub answered : ℕ → Flags → List Meta → List Meta
answered n f [] = []
answered n f (m ∷ ms) =
    if contains f.seen_sender m.sender
    then (if f.pull_cnt == n then [] else answered n f ms)
    else m ∷ (if f.pull_cnt + 1 == n then [] else answered n (mark_served f m.sender) ms)

-- The flags that it leaves.
abbrev pub flags_after : ℕ → List Meta → Flags → List Meta → Flags
flags_after n kept f [] = record f { q_pull_reqmeta = kept }
flags_after n kept f (m ∷ ms) =
    if contains f.seen_sender m.sender
    then (if f.pull_cnt == n
        then record (end_round f) { q_pull_reqmeta = kept ++ m ∷ ms }
        else flags_after n (kept ++ m ∷ []) f ms)
    else (if f.pull_cnt + 1 == n
        then record (end_round (mark_served f m.sender)) { q_pull_reqmeta = kept ++ ms }
        else flags_after n kept (mark_served f m.sender) ms)

-- The answer to a pull: the key as ps-lite knows it, and the bytes of the merged array.
abbrev pub reply : Deps → ℕ → List ℕ → ℕ → Meta → Response
reply d key bytes len m = record {
  to = m;
  pairs = record { keys = encode_key d key ∷ []; vals = take len bytes; lens = len ∷ [] };
}

module _ (d : Deps) (key : ℕ) where
  -- An answer that was made before has the right key.
  abbrev pub HasKeys : Server d.Compressor → Type 0
  HasKeys s =
      (s.pull_response_map key ≡ none)
      ⊎ ((r : Pairs) × (s.pull_response_map key ≡ some r) × (r.keys ≡ encode_key d key ∷ []))

  -- What a pull reads: the merged array is there, and these are its bytes.
  pub record Publishes (bytes : List ℕ) (len : ℕ) (s : Server d.Compressor) : Type 0 where
    pub ptr : Ptr
    pub merged : (s.update_buf key).merged.tensor ≡ some ptr
    pub merged_len : (s.update_buf key).merged.len ≡ len
    pub contents : deref s ptr ≡ bytes
    pub has_keys : HasKeys s

  -- A server that has answered these pulls, and is otherwise the same.
  pub record Answers (s : Server d.Compressor) (bytes : List ℕ) (len : ℕ) (ms : List Meta)
      (t : Server d.Compressor) : Type 0 where
    pub outbox : t.outbox ≡ s.outbox ++ map (reply d key bytes len) ms
    pub publishes : Publishes bytes len t
    pub config : t.config ≡ s.config
    pub store : t.store ≡ s.store
    pub update_buf : t.update_buf ≡ s.update_buf
    pub compressors : t.compressor_map ≡ s.compressor_map
    pub engine_queues : t.engine_queues ≡ s.engine_queues
    pub hash_cache : t.hash_cache ≡ s.hash_cache
    pub flags : t.flags ≡ s.flags

  abbrev replied : Server d.Compressor → List ℕ → ℕ → Meta → Server d.Compressor
  replied s bytes len m =
      let r = (reply d key bytes len m).pairs in
      respond (record s { pull_response_map = update s.pull_response_map key (some r) }) m r

  deref-replied :
      (s : Server d.Compressor) (bytes : List ℕ) (len : ℕ) (m : Meta) (p : Ptr)
      → deref (replied s bytes len m) p ≡ deref s p
  unfolding deref
  deref-replied s bytes len m (store_of k) = refl
  deref-replied s bytes len m (received bs) = refl
  deref-replied s bytes len m (compressed_of k) = refl

  send_pull_response-eq :
      (s : Server d.Compressor) (bytes : List ℕ) (len : ℕ) (m : Meta)
      → Publishes bytes len s
      → send_pull_response d s key m ≡ ok (replied s bytes len m)
  unfolding send_pull_response
  send_pull_response-eq s bytes len m p =
      ground (arith, p.merged, p.merged_len, p.contents, p.has_keys)

  pub send_pull_response-Answers :
      (s : Server d.Compressor) (bytes : List ℕ) (len : ℕ) (m : Meta)
      → Publishes bytes len s
      → (t : Server d.Compressor) × (send_pull_response d s key m ≡ ok t)
        × Answers s bytes len (m ∷ []) t
  send_pull_response-Answers s bytes len m p = (
    replied s bytes len m,
    send_pull_response-eq s bytes len m p,
    record {
      outbox = refl;
      publishes = record {
        ptr = p.ptr;
        merged = p.merged;
        merged_len = p.merged_len;
        contents = deref-replied s bytes len m p.ptr ∙ p.contents;
        has_keys =
            inr ((reply d key bytes len m).pairs, update_self s.pull_response_map key _, refl);
      };
      config = refl;
      store = refl;
      update_buf = refl;
      compressors = refl;
      engine_queues = refl;
      hash_cache = refl;
      flags = refl;
    },
  )

  Answers-none :
      (s : Server d.Compressor) (bytes : List ℕ) (len : ℕ)
      → Publishes bytes len s
      → Answers s bytes len [] s
  Answers-none s bytes len p = record {
    outbox = sym (append-nil s.outbox);
    publishes = p;
    config = refl;
    store = refl;
    update_buf = refl;
    compressors = refl;
    engine_queues = refl;
    hash_cache = refl;
    flags = refl;
  }

  Answers-cons :
      (s t u : Server d.Compressor) (bytes : List ℕ) (len : ℕ) (m : Meta) (ms : List Meta)
      → Answers s bytes len (m ∷ []) t
      → Answers t bytes len ms u
      → Answers s bytes len (m ∷ ms) u
  Answers-cons s t u bytes len m ms a b = record {
    outbox =
        b.outbox
        ∙ rw a.outbox
            (append_assoc s.outbox (reply d key bytes len m ∷ []) (map (reply d key bytes len) ms));
    publishes = b.publishes;
    config = b.config ∙ a.config;
    store = b.store ∙ a.store;
    update_buf = b.update_buf ∙ a.update_buf;
    compressors = b.compressors ∙ a.compressors;
    engine_queues = b.engine_queues ∙ a.engine_queues;
    hash_cache = b.hash_cache ∙ a.hash_cache;
    flags = b.flags ∙ a.flags;
  }

  -- With a merged array to publish, the engine's loop over the waiting pulls of a key returns and
  -- does what the list functions `answered` and `flags_after` say: it answers those pulls with the
  -- bytes of the merged array, in order, leaves those flags, and changes nothing else but the
  -- answers that are kept for the key.
  pub serve_pulls-Answers :
      (kept ms : List Meta) (f : Flags) (s : Server d.Compressor) (bytes : List ℕ) (len : ℕ)
      → Publishes bytes len s
      → (t : Server d.Compressor) × (serve_pulls d key kept ms f s
          ≡ ok (flags_after d.num_workers kept f ms, t))
        × Answers s bytes len (answered d.num_workers f ms) t
  unfolding serve_pulls mark_served
  serve_pulls-Answers kept [] f s bytes len p = (s, refl, Answers-none s bytes len p)
  serve_pulls-Answers kept (m ∷ ms) f s bytes len p =
      elim (Bool-cases (contains f.seen_sender m.sender)) [
        | inl seen ↦ elim (Bool-cases (f.pull_cnt == d.num_workers)) [
          | inl full ↦ (s, rw (seen, full), rw (seen, full) (Answers-none s bytes len p))
          | inr more ↦
              let (t, e, a) = serve_pulls-Answers (kept ++ m ∷ []) ms f s bytes len p in
              (t, rw (seen, more) e, rw (seen, more) a)
        ]
        | inr fresh ↦
            let (t, e, a) = send_pull_response-Answers s bytes len m p in
            elim (Bool-cases (f.pull_cnt + 1 == d.num_workers)) [
              | inl full ↦ (t, rw (fresh, e, full), rw (fresh, full) a)
              | inr more ↦
                  let (u, e', b) =
                    serve_pulls-Answers kept ms (mark_served f m.sender) t bytes len a.publishes in
                  (
                    u,
                    rw (fresh, e, more) e',
                    rw (fresh, more) (Answers-cons s t u bytes len m _ a b),
                  )
            ]
      ]
