-- ===== src/Server/Rounds/Initial.antt =====
-- The first push of a key by every worker, which makes its store and is a barrier: nobody is answered
-- before all have pushed.
use mathlib.Core.List.{append_assoc, append-nil}
use deep_inc.Base.{
  ℕ, zero, suc, true, le→leb, ◌-◌, ◌*◌, ◌/◌, ◌^◌, ◌+◌, ◌≤◌, ◌<◌, ◌≡◌, refl, ap, sym, subst, ◌∙◌,
  if◌then◌else◌, none, some, List, [], ◌∷◌, ◌++◌, map, length, length-append, replicate, take, drop,
  update, update_self, Result, ok, arith,
}
use deep_inc.Common.{DataHandleType, align}
use deep_inc.Server.State.{Deps, Server, Stored, UpdateBuf, Meta, Pairs, Response, no_pairs, copy}
use deep_inc.Server.Handler.{
  handle, handle_push, init_push, buffer_request, init_store, page_aligned_malloc, respond_all,
  put_requests,
}
use deep_inc.Server.Responses.{send_push_response}
use deep_inc.Server.Rounds.Pushes.{IsPush}

length-replicate : (n : ℕ) → length {A = ℕ} (replicate n 0) ≡ n
length-replicate zero = refl
length-replicate (suc n) = ap suc (length-replicate n)

module _ (d : Deps) (key tid : ℕ) (type : DataHandleType) where
  abbrev pub answer : Meta → Response
  answer m = record { to = m; pairs = no_pairs }

  respond_all_lem :
      (ms : List Meta) (s : Server d.Compressor)
      → let t = respond_all d key ms s in
        (t.outbox ≡ s.outbox ++ map answer ms)
        × ((t.update_buf key).request ≡ [])
        × (t.store ≡ s.store)
        × (t.config ≡ s.config)
  unfolding respond_all send_push_response
  respond_all_lem [] s = (
    sym (append-nil s.outbox),
    ap (λ (u : UpdateBuf). u.request) (update_self s.update_buf key _),
    refl,
    refl,
  )
  respond_all_lem (m ∷ ms) s =
      let (out, none_left, store, config) = respond_all_lem ms (send_push_response s key m) in
      (out ∙ append_assoc s.outbox (answer m ∷ []) (map answer ms), none_left, store, config)

  handle-eq-init_push :
      (p : Meta × Pairs) (s : Server d.Compressor)
      → IsPush d key tid type p
      → (s.store key).tensor ≡ none
      → handle d p.0 p.1 s ≡ init_push d key type p.0 p.1 (length p.1.vals) s
  unfolding handle handle_push
  handle-eq-init_push p s is fresh =
      ground (arith, is.command, is.plain, is.is_push, is.keys, is.decoded, is.lens)

  buffer_request_early :
      (m : Meta) (ready : Server d.Compressor → Result (Server d.Compressor))
      (s : Server d.Compressor)
      → length (s.update_buf key).request + 1 < d.num_workers
      → buffer_request d key m ready s
        ≡ ok (put_requests d s key ((s.update_buf key).request ++ m ∷ []))
  unfolding buffer_request
  buffer_request_early m ready s few =
      let grown = length-append (s.update_buf key).request (m ∷ []) in ground (arith, grown)

  buffer_request_last :
      (m : Meta) (ready : Server d.Compressor → Result (Server d.Compressor))
      (s u : Server d.Compressor)
      → length (s.update_buf key).request + 1 ≡ d.num_workers
      → ready (put_requests d s key ((s.update_buf key).request ++ m ∷ [])) ≡ ok u
      → buffer_request d key m ready s
        ≡ ok (respond_all d key ((s.update_buf key).request ++ m ∷ []) u)
  unfolding buffer_request
  buffer_request_last m ready s u all made =
      let grown = length-append (s.update_buf key).request (m ∷ []) in ground (arith, grown, made)

  -- The merged array's size is noted before the push is buffered.
  abbrev noted : Server d.Compressor → ℕ → Server d.Compressor
  noted s len =
      let u = s.update_buf key in
      let merged =
        if s.config.sync_mode
        then record (u.merged) { len = len; dtype = type.dtype }
        else u.merged in
      record s { update_buf = update s.update_buf key (record u { merged = merged }) }

  init_push-eq :
      (p : Meta × Pairs) (len : ℕ) (s : Server d.Compressor)
      → init_push d key type p.0 p.1 len s
        ≡ buffer_request d key p.0 (init_store d key type p.1.vals len) (noted s len)
  unfolding init_push
  init_push-eq p len s = refl

  noted-request :
      (s : Server d.Compressor) (len : ℕ)
      → ((noted s len).update_buf key).request ≡ (s.update_buf key).request
  noted-request s len = ap (λ (u : UpdateBuf). u.request) (update_self s.update_buf key _)

  init_store-eq :
      (vals : List ℕ) (len size : ℕ) (s : Server d.Compressor)
      → align len type.dtype ≡ ok size
      → len ≤ size
      → size + d.page_size ≤ 2 ^ 31
      → d.posix_memalign ((size + d.page_size - 1) / d.page_size * d.page_size) ≡ true
      → length vals ≡ len
      → init_store d key type vals len s
        ≡ ok (record s {
          store = update s.store key (record {
            tensor = some (take len vals ++ drop len (replicate size 0));
            len = len;
            dtype = type.dtype;
          });
        })
  unfolding init_store page_aligned_malloc copy
  init_store-eq vals len size s aligned fits small given exact =
      ground (arith, aligned, le→leb _ _ small, given, length-replicate size, exact)

  -- An initial push of one worker, of this length.
  unfoldable pub IsInitial : ℕ → Meta × Pairs → Type 0
  IsInitial len p = IsPush d key tid type p × (length p.1.vals ≡ len)

  -- How a server goes on while pushes are missing.
  pub record Waiting (s : Server d.Compressor) (ms : List Meta) (t : Server d.Compressor)
      : Type 0 where
    pub outbox : t.outbox ≡ s.outbox
    pub request : (t.update_buf key).request ≡ (s.update_buf key).request ++ ms
    pub store : t.store ≡ s.store

  pub init_early :
      (p : Meta × Pairs) (len : ℕ) (s : Server d.Compressor)
      → IsInitial len p
      → (s.store key).tensor ≡ none
      → length (s.update_buf key).request + 1 < d.num_workers
      → (t : Server d.Compressor) × (handle d p.0 p.1 s ≡ ok t) × Waiting s (p.0 ∷ []) t
  unfolding IsInitial
  init_early p len s is fresh few =
      let n = length p.1.vals in
      let s' = noted s n in
      let same = noted-request s n in
      (
        put_requests d s' key ((s'.update_buf key).request ++ p.0 ∷ []),
        handle-eq-init_push p s is.0 fresh
            ∙ init_push-eq p n s
            ∙ buffer_request_early p.0 (init_store d key type p.1.vals n) s'
                (subst (λ ms. length ms + 1 < d.num_workers) (sym same) few),
        record {
          outbox = refl;
          request =
              ap (λ (u : UpdateBuf). u.request) (update_self s'.update_buf key _)
              ∙ ap (λ ms. ms ++ p.0 ∷ []) same;
          store = refl;
        },
      )

  -- What the push that completes the round leaves.
  pub record Begun (s : Server d.Compressor) (ms : List Meta) (vals : List ℕ) (len size : ℕ)
      (t : Server d.Compressor) : Type 0 where
    pub outbox : t.outbox ≡ s.outbox ++ map answer ms
    pub none_buffered : (t.update_buf key).request ≡ []
    pub stored : (t.store key).tensor ≡ some (take len vals ++ drop len (replicate size 0))
    pub len_stored : (t.store key).len ≡ len

  pub init_last :
      (p : Meta × Pairs) (len size : ℕ) (s : Server d.Compressor)
      → IsInitial len p
      → (s.store key).tensor ≡ none
      → align len type.dtype ≡ ok size
      → len ≤ size
      → size + d.page_size ≤ 2 ^ 31
      → d.posix_memalign ((size + d.page_size - 1) / d.page_size * d.page_size) ≡ true
      → length (s.update_buf key).request + 1 ≡ d.num_workers
      → (t : Server d.Compressor) × (handle d p.0 p.1 s ≡ ok t)
        × Begun s ((s.update_buf key).request ++ p.0 ∷ []) p.1.vals len size t
  unfolding IsInitial
  init_last p len size s is fresh aligned fits small given all =
      let s' = noted s len in
      let same = noted-request s len in
      let s2 = put_requests d s' key ((s'.update_buf key).request ++ p.0 ∷ []) in
      let stored : Stored = record {
        tensor = some (take len p.1.vals ++ drop len (replicate size 0));
        len = len;
        dtype = type.dtype;
      } in
      let u = record s2 { store = update s2.store key stored } in
      let made = init_store-eq p.1.vals len size s2 aligned fits small given is.1 in
      let ms = (s'.update_buf key).request ++ p.0 ∷ [] in
      let (out, none_left, store, config) = respond_all_lem ms u in
      let here = ap (λ st. st key) store ∙ update_self s2.store key stored in
      (
        respond_all d key ms u,
        handle-eq-init_push p s is.0 fresh
            ∙ ap (λ n. init_push d key type p.0 p.1 n s) is.1
            ∙ init_push-eq p len s
            ∙ buffer_request_last p.0 (init_store d key type p.1.vals len) s' u
                (subst (λ rs. length rs + 1 ≡ d.num_workers) (sym same) all) made,
        record {
          outbox = out ∙ ap (λ rs. s.outbox ++ map answer (rs ++ p.0 ∷ [])) same;
          none_buffered = none_left;
          stored = ap (λ (x : Stored). x.tensor) here;
          len_stored = ap (λ (x : Stored). x.len) here;
        },
      )
