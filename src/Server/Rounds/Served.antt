-- ===== src/Server/Rounds/Served.antt =====
-- Who is answered in a round of pulls, and what the flags of the key keep.
use deep_inc.Base.{
  subst, subst, ℕ, ◌+◌, ◌≤◌, ◌≡◌, refl, ap, ◌∙◌, inl, inr, false, ◌==◌, some, List, [], ◌∷◌, length,
  contains, Bool-cases, ok, arith,
}
use deep_inc.Server.State.{Deps, Server, Meta, Flags}
use deep_inc.Server.Engine.{end_round, mark_served, serve_pulls}
use deep_inc.Server.Rounds.Pulls.{answered, flags_after, Publishes, Answers, serve_pulls-Answers}

-- No sender occurs twice, or was seen before.
abbrev pub AreFresh : List ℕ → List Meta → Type 0
AreFresh seen [] = Unit
AreFresh seen (m ∷ ms) = (contains seen m.sender ≡ false) × AreFresh (m.sender ∷ seen) ms

-- The flags that a new round begins with, but for the pulls that wait.
abbrev pub reopened : List Meta → Flags
reopened ms = record {
  is_push_finished = some false;
  pull_cnt = 0;
  seen_sender = [];
  q_pull_reqmeta = ms;
}

-- The engine answers all waiting pulls if their senders are new and the workers suffice.
pub answered_all :
    (n : ℕ) (f : Flags) (ms : List Meta)
    → AreFresh f.seen_sender ms
    → f.pull_cnt + length ms ≤ n
    → answered n f ms ≡ ms
unfolding mark_served
answered_all n f [] fresh few = refl
answered_all n f (m ∷ []) fresh few = ground (arith, fresh.0)
answered_all n f (m ∷ m' ∷ ms) fresh few =
    let rest = answered_all n (mark_served f m.sender) (m' ∷ ms) fresh.1 (omega arith) in
    ground (arith, fresh.0, rest)

-- No pull of the list is answered twice, nor one whose sender was answered before.
pub answered-AreFresh :
    (n : ℕ) (f : Flags) (ms : List Meta) → AreFresh f.seen_sender (answered n f ms)
unfolding mark_served
answered-AreFresh n f [] = tt
answered-AreFresh n f (m ∷ ms) = elim (Bool-cases (contains f.seen_sender m.sender)) [
  | inl seen ↦ elim (Bool-cases (f.pull_cnt == n)) [
    | inl full ↦ rw (seen, full) tt
    | inr more ↦ rw (seen, more) (answered-AreFresh n f ms)
  ]
  | inr fresh ↦ elim (Bool-cases (f.pull_cnt + 1 == n)) [
    | inl full ↦ rw (fresh, full) (fresh, tt)
    | inr more ↦ rw (fresh, more) (fresh, answered-AreFresh n (mark_served f m.sender) ms)
  ]
]

-- If the waiting pulls complete the round, the flags go back to those of a new one.
pub flags_after-reopened :
    (n : ℕ) (f : Flags) (m : Meta) (ms : List Meta)
    → AreFresh f.seen_sender (m ∷ ms)
    → f.pull_cnt + length (m ∷ ms) ≡ n
    → flags_after n [] f (m ∷ ms) ≡ reopened []
unfolding mark_served end_round
flags_after-reopened n f m [] fresh all = ground (arith, fresh.0)
flags_after-reopened n f m (m' ∷ ms) fresh all =
    let rest = flags_after-reopened n (mark_served f m.sender) m' ms fresh.1 (omega arith) in
    ground (arith, fresh.0, rest)

-- With a merged array to publish, the engine's loop over any waiting pulls of a key returns, and
-- the pulls that it answers have senders that are all different and were not answered before in the
-- round.
pub serve_pulls-AreFresh :
    (d : Deps) (key : ℕ) (ms : List Meta) (f : Flags) (s : Server d.Compressor) (bytes : List ℕ)
    (len : ℕ)
    → Publishes d key bytes len s
    → (g : Flags) × (t : Server d.Compressor) × (now : List Meta) × (serve_pulls d key [] ms f s
        ≡ ok (g, t))
      × Answers d key s bytes len now t
      × AreFresh f.seen_sender now
serve_pulls-AreFresh d key ms f s bytes len p =
    let (t, e, a) = serve_pulls-Answers d key [] ms f s bytes len p in
    (
      flags_after d.num_workers [] f ms,
      t,
      answered d.num_workers f ms,
      e,
      a,
      answered-AreFresh d.num_workers f ms,
    )

-- With a merged array to publish, if the waiting pulls of a key have senders that are all different
-- and not answered yet, and with those answered before they make up all workers, then the engine's
-- loop answers all of them, in order, and leaves the flags of a new round with no pull waiting.
pub serve_pulls_all :
    (d : Deps) (key : ℕ) (m : Meta) (ms : List Meta) (f : Flags) (s : Server d.Compressor)
    (bytes : List ℕ) (len : ℕ)
    → Publishes d key bytes len s
    → AreFresh f.seen_sender (m ∷ ms)
    → f.pull_cnt + length (m ∷ ms) ≡ d.num_workers
    → (t : Server d.Compressor) × (serve_pulls d key [] (m ∷ ms) f s ≡ ok (reopened [], t))
      × Answers d key s bytes len (m ∷ ms) t
serve_pulls_all d key m ms f s bytes len p fresh all =
    let (t, e, a) = serve_pulls-Answers d key [] (m ∷ ms) f s bytes len p in
    (
      t,
      e ∙ ap (λ g. ok (g, t)) (flags_after-reopened d.num_workers f m ms fresh all),
      subst (λ now. Answers d key s bytes len now t)
          (answered_all d.num_workers f (m ∷ ms) fresh (omega arith)) a,
    )
