-- ===== src/Server/Load/Balance.antt =====
-- How the engine threads share the keys.
use deep_inc.Base.{
  ℕ, zero, suc, ◌+◌, ◌-◌, ◌^◌, ◌%◌, ◌≤◌, ◌<◌, ◌≡◌, refl, ap, ◌∙◌, ◌⊎◌, inl, inr, ltb, Option, none,
  some, List, [], ◌∷◌, length, get_elem?, get_elem?-lt, get_elem?-set_self, length-set, subst,
  get_or, set, All, Bool-cases, Option-cases, update, update_self, Result, ok, ok_inj, ◌>>=◌,
  >>=-eq-ok, ℕ_discrete, arith,
}
use deep_inc.Server.Load.{Loads, min_index_from, get_thread_id}

-- Where a least load stands, counted from `i`.
pub record IsLeast (ls : List ℕ) (at : ℕ) : Type 0 where
  pub load : ℕ
  pub here : get_elem? ls at ≡ some load
  pub least : All (λ l. load ≤ l) ls

-- The loop keeps its candidate if no load is less, and otherwise finds a least one.
min_index_from_lem :
    (ls : List ℕ) (i m : ℕ) (best : Option ℕ)
    → ((All (λ l. m ≤ l) ls) × (min_index_from ls i m best ≡ best))
      ⊎ ((k : ℕ) × (r : IsLeast ls k) × (r.load < m) × (min_index_from ls i m best ≡ some (i + k)))
unfolding min_index_from
min_index_from_lem [] i m best = inl (tt, refl)
min_index_from_lem (l ∷ ls) i m best = elim (Bool-cases (ltb l m)) [
  | inl less ↦
      let below : l < m = ground (arith, less) in
      elim (min_index_from_lem ls (i + 1) l (some i)) [
        | inl (rest, e) ↦ inr (
          0,
          record { load = l; here = refl; least = (omega arith, rest) },
          below,
          ground (arith, less, e),
        )
        | inr (k, r, lt, e) ↦ inr (
          suc k,
          record { load = r.load; here = r.here; least = (omega arith, r.least) },
          omega arith,
          ground (arith, less, e),
        )
      ]
  | inr more ↦
      let above : m ≤ l = ground (arith, more) in
      elim (min_index_from_lem ls (i + 1) m best) [
        | inl (rest, e) ↦ inl ((above, rest), ground (arith, more, e))
        | inr (k, r, lt, e) ↦ inr (
          suc k,
          record { load = r.load; here = r.here; least = (omega arith, r.least) },
          lt,
          ground (arith, more, e),
        )
      ]
]

get_thread_id-cached :
    (l l' : Loads) (key len tid : ℕ)
    → get_thread_id l key len ≡ ok (tid, l')
    → l'.hash_cache key ≡ some tid
unfolding get_thread_id
get_thread_id-cached l l' key len tid e = elim (Option-cases (l.hash_cache key)) [
  | inl missing ↦ elim (Option-cases (min_index_from l.acc_load 0 (2 ^ 64 - 1) none)) [
    | inl nowhere ↦ ground (arith, e, missing, nowhere)
    | inr (t, at) ↦ ground (arith, e, missing, at)
  ]
  | inr (t, cached) ↦ ground (arith, e, cached)
]

-- A call for any key keeps the thread of a key that has one.
get_thread_id-keeps :
    (l l' : Loads) (key tid other len t : ℕ)
    → l.hash_cache key ≡ some tid
    → get_thread_id l other len ≡ ok (t, l')
    → l'.hash_cache key ≡ some tid
unfolding get_thread_id
get_thread_id-keeps l l' key tid other len t has e = elim (Option-cases (l.hash_cache other)) [
  | inl missing ↦ elim (Option-cases (min_index_from l.acc_load 0 (2 ^ 64 - 1) none)) [
    | inl nowhere ↦ ground (arith, e, missing, nowhere)
    | inr (u, at) ↦ elim (ℕ_discrete other key) [
      | yes same ↦ cc
      | no apart ↦ ground (arith, e, missing, at, has)
    ]
  ]
  | inr (u, cached) ↦ ground (arith, e, cached, has)
]

get_thread_id-known :
    (l : Loads) (key len tid : ℕ)
    → l.hash_cache key ≡ some tid
    → get_thread_id l key len ≡ ok (tid, l)
unfolding get_thread_id
get_thread_id-known l key len tid has = rw (has, get_thread_id) refl

-- Calls for these keys and lengths, one after the other.
unfoldable pub get_thread_ids : List (ℕ × ℕ) → Loads → Result Loads
get_thread_ids [] l = ok l
get_thread_ids ((key, len) ∷ calls) l = get_thread_id l key len >>= λ r. get_thread_ids calls r.1

get_thread_ids-keeps :
    (calls : List (ℕ × ℕ)) (l l' : Loads) (key tid : ℕ)
    → l.hash_cache key ≡ some tid
    → get_thread_ids calls l ≡ ok l'
    → l'.hash_cache key ≡ some tid
unfolding get_thread_ids
get_thread_ids-keeps [] l l' key tid has run =
    subst (λ (x : Loads). x.hash_cache key ≡ some tid) (ok_inj run) has
get_thread_ids-keeps ((other, len) ∷ calls) l l' key tid has run =
    let (r, one, rest) = >>=-eq-ok (get_thread_id l other len) _ run in
    get_thread_ids-keeps calls r.1 l' key tid
      (get_thread_id-keeps l r.1 key tid other len r.0 has one) rest

-- Once a call has given a key a thread, then after any further calls that succeed, for this key and
-- others, a call for the key, of any length, gives the same thread and changes nothing.
pub get_thread_id_again :
    (l l' l'' : Loads) (key len tid later : ℕ) (calls : List (ℕ × ℕ))
    → get_thread_id l key len ≡ ok (tid, l')
    → get_thread_ids calls l' ≡ ok l''
    → get_thread_id l'' key later ≡ ok (tid, l'')
get_thread_id_again l l' l'' key len tid later calls first between =
    get_thread_id-known l'' key later tid (
      get_thread_ids-keeps calls l' l'' key tid (get_thread_id-cached l l' key len tid first)
        between)

-- The loads before a key came, with its size added to those of its thread.
pub record IsGiven (l : Loads) (key len tid : ℕ) (l' : Loads) : Type 0 where
  pub in_range : tid < l.engine_thread_num
  pub least : IsLeast l.acc_load tid
  pub cached : l'.hash_cache key ≡ some tid
  pub loaded : get_elem? l'.acc_load tid ≡ some ((least.load + len) % 2 ^ 64)
  pub threads : length l'.acc_load ≡ l'.engine_thread_num

get_or-get_elem? : (xs : List ℕ) (i d x : ℕ) → get_elem? xs i ≡ some x → get_or xs i d ≡ x
get_or-get_elem? [] i d x e = cc
get_or-get_elem? (y ∷ xs) zero d x e = cc
get_or-get_elem? (y ∷ xs) (suc i) d x e = get_or-get_elem? xs i d x e

get_thread_id-eq :
    (l : Loads) (key len k : ℕ)
    → l.hash_cache key ≡ none
    → 0 < len
    → length l.acc_load ≡ l.engine_thread_num
    → min_index_from l.acc_load 0 (2 ^ 64 - 1) none ≡ some k
    → k < l.engine_thread_num
    → get_thread_id l key len
      ≡ ok (
        k,
        record l {
          hash_cache = update l.hash_cache key (some k);
          acc_load = set l.acc_load k ((get_or l.acc_load k 0 + len) % 2 ^ 64);
        },
      )
unfolding get_thread_id
get_thread_id-eq l key len k fresh pos threads found lt = ground arith

-- A key without a thread, pushed with a positive length, gets one if there is a load for each
-- thread and the first load is below 2 ^ 64 - 1: a thread in range whose load is least among all,
-- which is remembered for the key, and whose load grows by the length modulo 2 ^ 64.
pub get_thread_id_least :
    (l : Loads) (key len first : ℕ) (rest : List ℕ)
    → l.hash_cache key ≡ none
    → 0 < len
    → length l.acc_load ≡ l.engine_thread_num
    → l.acc_load ≡ first ∷ rest
    → first < 2 ^ 64 - 1
    → (tid : ℕ) × (l' : Loads) × (get_thread_id l key len ≡ ok (tid, l')) × IsGiven l key len tid l'
get_thread_id_least l key len first rest fresh pos threads shape low =
    elim (min_index_from_lem l.acc_load 0 (2 ^ 64 - 1) none) [
      | inl (all, e) ↦
          let high : 2 ^ 64 - 1 ≤ first = (subst (All (λ x. 2 ^ 64 - 1 ≤ x)) shape all).0 in
          absurd (omega arith)
      | inr (k, r, lt, e) ↦
          let in_range = get_elem?-lt l.acc_load k r.here in
          let at_k : 0 + k ≡ k = omega arith in
          let new = (get_or l.acc_load k 0 + len) % 2 ^ 64 in
          (
            k,
            record l {
              hash_cache = update l.hash_cache key (some k);
              acc_load = set l.acc_load k new;
            },
            get_thread_id-eq l key len k fresh pos threads (e ∙ ap some at_k) (omega arith),
            record {
              in_range = omega arith;
              least = r;
              cached = update_self l.hash_cache key (some k);
              loaded =
                  get_elem?-set_self l.acc_load k new in_range
                  ∙ ap (λ x. some ((x + len) % 2 ^ 64))
                      (get_or-get_elem? l.acc_load k 0 r.load r.here);
              threads = length-set l.acc_load k new ∙ threads;
            },
          )
    ]
