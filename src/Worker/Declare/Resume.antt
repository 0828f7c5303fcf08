-- ===== src/Worker/Declare/Resume.antt =====
-- Declared keys over a suspension and a resumption of the worker.
use mathlib.Core.List.{append_assoc, append-nil, map-append}
use deep_inc.Base.{
  ℕ, ◌+◌, ◌^◌, ◌≤◌, ◌<◌, ◌≡◌, refl, ap, sym, ◌∙◌, subst, inl, inr, false, List, [], ◌∷◌, ◌++◌, map,
  length, length-append, Bool-cases, arith,
}
use deep_inc.Worker.State.{Context}
use deep_inc.Worker.Trace.{has_name}
use deep_inc.Worker.Declare.{
  Declared, names, new_context, is_tensor_declared, declare_all, re_declare_tensor, shutdown,
}

-- The names with their declared keys.
abbrev pub keys_of : List (List ℕ × Context) → List (List ℕ × ℕ)
keys_of cs = map (λ x. (x.0, x.1.declared_key)) cs

abbrev numbered : ℕ → List (List ℕ) → List (List ℕ × ℕ)
numbered k [] = []
numbered k (n ∷ ns) = (n, k) ∷ numbered (k + 1) ns

-- None of the names occurs twice or among those before.
abbrev AreNew : List (List ℕ) → List (List ℕ) → Type 0
AreNew seen [] = Unit
AreNew seen (n ∷ ns) = (has_name seen n ≡ false) × AreNew (seen ++ n ∷ []) ns

numbered-append :
    (k : ℕ) (ns : List (List ℕ)) (n : List ℕ)
    → numbered k (ns ++ n ∷ []) ≡ numbered k ns ++ (n, k + length ns) ∷ []
numbered-append k [] n = ap (λ i. (n, i) ∷ []) (omega arith)
numbered-append k (m ∷ ns) n =
    let next : k + 1 + length ns ≡ k + length (m ∷ ns) = omega arith in
    ap (λ xs. (m, k) ∷ xs)
      (numbered-append (k + 1) ns n ∙ ap (λ i. numbered (k + 1) ns ++ (n, i) ∷ []) next)

names_of_keys : (cs : List (List ℕ × Context)) → map (λ x. x.0) (keys_of cs) ≡ names cs
names_of_keys [] = refl
names_of_keys (c ∷ cs) = ap (λ ns. c.0 ∷ ns) (names_of_keys cs)

names_of_numbered : (k : ℕ) (ns : List (List ℕ)) → map (λ x. x.0) (numbered k ns) ≡ ns
names_of_numbered k [] = refl
names_of_numbered k (n ∷ ns) = ap (λ xs. n ∷ xs) (names_of_numbered (k + 1) ns)

AreNew-append :
    (seen ns : List (List ℕ)) (n : List ℕ)
    → AreNew seen ns
    → has_name (seen ++ ns) n ≡ false
    → AreNew seen (ns ++ n ∷ [])
AreNew-append seen [] n all new = (subst (λ xs. has_name xs n ≡ false) (append-nil seen) new, tt)
AreNew-append seen (m ∷ ns) n all new = (
  all.0,
  AreNew-append (seen ++ m ∷ []) ns n all.1
      (subst (λ xs. has_name xs n ≡ false) (sym (append_assoc seen (m ∷ []) ns)) new),
)

-- The state in which these names have the keys from 0 on.
record IsNumbered (ns : List (List ℕ)) (g : Declared) : Type 0 where
  pub keys : keys_of g.name_to_cxt ≡ numbered 0 ns
  pub next : g.next_key ≡ length ns

names-IsNumbered : (ns : List (List ℕ)) (g : Declared) → IsNumbered ns g → names g.name_to_cxt ≡ ns
names-IsNumbered ns g c =
    sym (names_of_keys g.name_to_cxt) ∙ ap (map (λ x. x.0)) c.keys ∙ names_of_numbered 0 ns

-- A new name takes the next key.
declare-IsNumbered :
    (ns : List (List ℕ)) (n : List ℕ) (g : Declared)
    → IsNumbered ns g
    → has_name ns n ≡ false
    → length ns + 1 < 2 ^ 32
    → IsNumbered (ns ++ n ∷ []) (is_tensor_declared g n).1
unfolding is_tensor_declared new_context
declare-IsNumbered ns n g c new small =
    let absent : has_name (names g.name_to_cxt) n ≡ false =
      subst (λ xs. has_name xs n ≡ false) (sym (names-IsNumbered ns g c)) new in
    let keys : keys_of (g.name_to_cxt ++ (n, new_context n g.next_key) ∷ [])
        ≡ numbered 0 (ns ++ n ∷ []) =
      map-append _ g.name_to_cxt ((n, new_context n g.next_key) ∷ [])
      ∙ ap (λ xs. xs ++ (n, g.next_key) ∷ []) c.keys
      ∙ ap (λ i. numbered 0 ns ++ (n, i) ∷ []) (omega (arith, c.next))
      ∙ sym (numbered-append 0 ns n) in
    rw absent (record { keys = keys; next = omega (arith, c.next, length-append ns (n ∷ [])) })

-- Declaring new names numbers them on.
declare_all-IsNumbered :
    (ps qs : List (List ℕ)) (g : Declared)
    → IsNumbered ps g
    → AreNew ps qs
    → length ps + length qs < 2 ^ 32
    → IsNumbered (ps ++ qs) (declare_all qs g)
unfolding declare_all
declare_all-IsNumbered ps [] g c new small = subst (λ xs. IsNumbered xs g) (sym (append-nil ps)) c
declare_all-IsNumbered ps (q ∷ qs) g c new small =
    let c' = declare-IsNumbered ps q g c new.0 (omega arith) in
    let rest =
      declare_all-IsNumbered (ps ++ q ∷ []) qs (is_tensor_declared g q).1 c' new.1
        (omega (arith, length-append ps (q ∷ []))) in
    subst (λ xs. IsNumbered xs (declare_all qs (is_tensor_declared g q).1))
      (append_assoc ps (q ∷ []) qs) rest

-- A worker in which every declared name has its context, and no name is listed twice.
record IsConsistent (g : Declared) : Type 0 where
  pub numbers : IsNumbered g.declared_tensors g
  pub new : AreNew [] g.declared_tensors

declare-IsConsistent :
    (g : Declared) (n : List ℕ)
    → IsConsistent g
    → length g.declared_tensors + 1 < 2 ^ 32
    → IsConsistent (is_tensor_declared g n).1
      × (length (is_tensor_declared g n).1.declared_tensors ≤ length g.declared_tensors + 1)
unfolding is_tensor_declared
declare-IsConsistent g n c small =
    let same = names-IsNumbered g.declared_tensors g c.numbers in
    elim (Bool-cases (has_name (names g.name_to_cxt) n)) [
      | inl known ↦ rw known (c, omega arith)
      | inr absent ↦
          let new : has_name g.declared_tensors n ≡ false =
            subst (λ xs. has_name xs n ≡ false) same absent in
          let r = declare-IsNumbered g.declared_tensors n g c.numbers new small in
          let r' = rw (is_tensor_declared, absent, new) at r in
          rw (absent, new)
            (
              record {
                numbers = record { keys = r'.keys; next = r'.next };
                new = AreNew-append [] g.declared_tensors n c.new new;
              },
              omega (arith, length-append g.declared_tensors (n ∷ [])),
            )
    ]

declare_all-IsConsistent :
    (ns : List (List ℕ)) (g : Declared)
    → IsConsistent g
    → length g.declared_tensors + length ns < 2 ^ 32
    → IsConsistent (declare_all ns g)
      × (length (declare_all ns g).declared_tensors ≤ length g.declared_tensors + length ns)
unfolding declare_all
declare_all-IsConsistent [] g c small = (c, omega arith)
declare_all-IsConsistent (n ∷ ns) g c small =
    let (c', more) = declare-IsConsistent g n c (omega arith) in
    let (c'', most) = declare_all-IsConsistent ns (is_tensor_declared g n).1 c' (omega arith) in
    (c'', omega arith)

abbrev pub nothing : Declared
nothing = record { name_to_cxt = []; declared_tensors = []; next_key = 0 }

-- For any list of fewer than 2 ^ 32 names, declared one after the other in a new worker, with names
-- that come more than once: after the worker is shut down and the names are declared again, the
-- contexts have the same names and the same declared keys, in the same order.
pub resume_keeps_keys :
    (ns : List (List ℕ))
    → length ns < 2 ^ 32
    → let g = declare_all ns nothing in
      keys_of (re_declare_tensor (shutdown g)).name_to_cxt ≡ keys_of g.name_to_cxt
unfolding re_declare_tensor shutdown
resume_keeps_keys ns small =
    let g = declare_all ns nothing in
    let (c, most) =
      declare_all-IsConsistent ns nothing
        (record { numbers = record { keys = refl; next = refl }; new = tt }) (omega arith) in
    let again =
      declare_all-IsNumbered [] g.declared_tensors (shutdown g)
        (record { keys = refl; next = refl }) c.new (omega arith) in
    again.keys ∙ sym c.numbers.keys
