-- ===== src/Server/Rounds/Barrier.antt =====
-- The initial pushes of all workers, one after the other.
use mathlib.Core.List.{append_assoc, append-nil}
use deep_inc.Base.{
  ℕ, suc, true, ◌-◌, ◌*◌, ◌/◌, ◌^◌, ◌+◌, ◌≤◌, ◌<◌, ◌≡◌, refl, ap, ◌∙◌, none, List, [], ◌∷◌, ◌++◌,
  map, length, length-append, All, ok, arith,
}
use deep_inc.Common.{DataHandleType, align}
use deep_inc.Server.State.{Deps, Server, Stored, Meta, Pairs}
use deep_inc.Server.Handler.{handle}
use deep_inc.Server.Rounds.Pushes.{handle_all}
use deep_inc.Server.Rounds.Initial.{IsInitial, Waiting, init_early, Begun, init_last}

module _ (d : Deps) (key tid : ℕ) (type : DataHandleType) where
  abbrev pub metas : List (Meta × Pairs) → List Meta
  metas ps = map (λ x. x.0) ps

  handle_all-cons :
      (p : Meta × Pairs) (ps : List (Meta × Pairs)) (s t u : Server d.Compressor)
      → handle d p.0 p.1 s ≡ ok t
      → handle_all d ps t ≡ ok u
      → handle_all d (p ∷ ps) s ≡ ok u
  unfolding handle_all
  handle_all-cons p ps s t u e e' = rw e e'

  handle_all-nil : (t : Server d.Compressor) → handle_all d [] t ≡ ok t
  unfolding handle_all
  handle_all-nil t = refl

  waits :
      (ps : List (Meta × Pairs)) (len : ℕ) (s : Server d.Compressor)
      → All (IsInitial d key tid type len) ps
      → (s.store key).tensor ≡ none
      → length (s.update_buf key).request + length ps < d.num_workers
      → (t : Server d.Compressor) × (handle_all d ps s ≡ ok t)
        × Waiting d key tid type s (metas ps) t
  waits [] len s is fresh few = (
    s,
    handle_all-nil s,
    record {
      outbox = refl;
      request = ground (arith, append-nil (s.update_buf key).request);
      store = refl;
    },
  )
  waits (p ∷ ps) len s is fresh few =
      let (t, e, w) = init_early d key tid type p len s is.0 fresh (omega arith) in
      let grown : length (t.update_buf key).request ≡ length (s.update_buf key).request + 1 =
        omega (arith, ap length w.request, length-append (s.update_buf key).request (p.0 ∷ [])) in
      let (u, e', v) =
        waits ps len t is.1 (ap (λ (st : ℕ → Stored). (st key).tensor) w.store ∙ fresh)
          (omega arith) in
      (
        u,
        handle_all-cons p ps s t u e e',
        record {
          outbox = v.outbox ∙ w.outbox;
          request =
              v.request
              ∙ rw w.request (append_assoc (s.update_buf key).request (p.0 ∷ []) (metas ps));
          store = v.store ∙ w.store;
        },
      )

  length-metas : (ps : List (Meta × Pairs)) → length (metas ps) ≡ length ps
  length-metas [] = refl
  length-metas (p ∷ ps) = ap suc (length-metas ps)

  -- If all workers push a key that has no store and no buffered push, all with the same length,
  -- this length aligned for the data type is at least the length and with a page at most 2 ^ 31,
  -- and the memory of so many whole pages is given, then no push before the last is answered; the
  -- last push is taken too, every push is then answered in the order in which they came, no push
  -- stays buffered, and the store holds the bytes of the last push followed by zeros up to the
  -- aligned length, with the length pushed.
  pub initial_round :
      (ps : List (Meta × Pairs)) (p : Meta × Pairs) (len size : ℕ) (s : Server d.Compressor)
      → All (IsInitial d key tid type len) ps
      → IsInitial d key tid type len p
      → (s.store key).tensor ≡ none
      → (s.update_buf key).request ≡ []
      → align len type.dtype ≡ ok size
      → len ≤ size
      → size + d.page_size ≤ 2 ^ 31
      → d.posix_memalign ((size + d.page_size - 1) / d.page_size * d.page_size) ≡ true
      → length ps + 1 ≡ d.num_workers
      → (t : Server d.Compressor) × (u : Server d.Compressor) × (handle_all d ps s ≡ ok t)
        × (t.outbox ≡ s.outbox)
        × (handle d p.0 p.1 t ≡ ok u)
        × Begun d key tid type s (metas ps ++ p.0 ∷ []) p.1.vals len size u
  initial_round ps p len size s is last fresh empty aligned fits small given all =
      let (t, e, w) = waits ps len s is fresh (ground (arith, empty)) in
      let request = w.request ∙ ap (λ ms. ms ++ metas ps) empty in
      let grown : length (t.update_buf key).request ≡ length ps =
        omega (arith, ap length request, length-metas ps) in
      let (u, e', b) =
        init_last d key tid type p len size t last
          (ap (λ (st : ℕ → Stored). (st key).tensor) w.store ∙ fresh) aligned fits small given
          (omega arith) in
      (
        t,
        u,
        e,
        w.outbox,
        e',
        record {
          outbox = b.outbox ∙ rw (w.outbox, request) refl;
          none_buffered = b.none_buffered;
          stored = b.stored;
          len_stored = b.len_stored;
        },
      )
