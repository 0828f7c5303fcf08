-- ===== src/Worker/Loops/Signals.antt =====
-- What a device has signalled, and the steps of its NCCL loops that signal nothing.
use mathlib.Core.List.{append-nil}
use deep_inc.Base.{
  ℕ, zero, suc, ◌≡◌, ◌∙◌, refl, sym, ap, subst, Bool, true, false, ◌==◌, Option, List, [], ◌∷◌,
  ◌++◌, ok, check_failed, check, null_pointer, ◌%◌, or_fail, >>=-eq-ok, ok_inj,
}
use deep_inc.Common.{QueueType, reduce, broadcast}
use deep_inc.Worker.State.{Task, is_named}
use deep_inc.Worker.ScheduledQueue.{get_task}
use deep_inc.Worker.Nccl.{NcclManager}
use deep_inc.Worker.Tasks.{BytePsCommMsg}
use deep_inc.Worker.Loops.{
  Device, Node, Pointer, Act, signal_switch, signal_machine, signal_reducer_root, called_nccl,
  copied, summed, next_task, post_nccl_calls, stage_state, unit_len, call_shares, reduce_calls,
  broadcast_calls,
}
use deep_inc.Worker.Loops.Groups.{signal_of, comm_message}

-- A stage that NCCL runs, and a key.
abbrev pub Order : Type 0
Order = Bool × ℕ

abbrev pub stage : Bool → QueueType
stage true = reduce
stage false = broadcast

abbrev pub order_message : ℕ → Bool × ℕ → BytePsCommMsg
order_message rank o = comm_message rank (signal_of (stage o.0)) o.1

abbrev pub key_of : Task → ℕ
key_of t = t.key

abbrev pub stage_name : Bool × ℕ → QueueType
stage_name o = stage o.0

-- The signals to the switch among what a device has done.
abbrev pub signals : List Act → List BytePsCommMsg
signals [] = []
signals (signal_switch m ∷ acts) = m ∷ signals acts
signals (a ∷ acts) = signals acts

pub signals-append : (xs ys : List Act) → signals (xs ++ ys) ≡ signals xs ++ signals ys
signals-append [] ys = refl
signals-append (signal_switch m ∷ xs) ys =
    ap (λ (l : List BytePsCommMsg). m ∷ l) (signals-append xs ys)
signals-append (signal_machine m ∷ xs) ys = signals-append xs ys
signals-append (signal_reducer_root m ∷ xs) ys = signals-append xs ys
signals-append (called_nccl c ∷ xs) ys = signals-append xs ys
signals-append (copied a b n ∷ xs) ys = signals-append xs ys
signals-append (summed a b n d ∷ xs) ys = signals-append xs ys

-- A step that signals nothing, and leaves the manager alone.
pub record Silent (s s' : Node) : Type 0 where
  pub same_nccl : s'.nccl ≡ s.nccl
  pub same_signals : signals s'.acts ≡ signals s.acts

pub next_task-Silent :
    (ready : ℕ → Bool) (now : ℕ) (op : QueueType) (s : Node) (r : Option Task × Node)
    → next_task ready now op s ≡ ok r
    → Silent s r.1
unfolding next_task
next_task-Silent ready now op s r run =
    let (q, got, made) = >>=-eq-ok (get_task ready now (stage_state s.world op)) _ run in
    record {
      same_nccl = ap (λ (p : Option Task × Node). p.1.nccl) (sym (ok_inj made));
      same_signals = ap (λ (p : Option Task × Node). signals p.1.acts) (sym (ok_inj made));
    }

pub reduce_calls-signals :
    (m : NcclManager) (t : Task) (p out : Pointer) (unit dtype rank root num_elem left_elem : ℕ)
    → signals (reduce_calls m t p out unit dtype rank root num_elem left_elem) ≡ []
unfolding reduce_calls
reduce_calls-signals m t p out unit dtype rank root zero zero = refl
reduce_calls-signals m t p out unit dtype rank root zero (suc l) = refl
reduce_calls-signals m t p out unit dtype rank root (suc n) zero = refl
reduce_calls-signals m t p out unit dtype rank root (suc n) (suc l) = refl

pub broadcast_calls-signals :
    (m : NcclManager) (t : Task) (p : Pointer) (unit dtype rank root num_elem left_elem : ℕ)
    → signals (broadcast_calls m t p unit dtype rank root num_elem left_elem) ≡ []
unfolding broadcast_calls
broadcast_calls-signals m t p unit dtype rank root zero zero = refl
broadcast_calls-signals m t p unit dtype rank root zero (suc l) = refl
broadcast_calls-signals m t p unit dtype rank root (suc n) zero = refl
broadcast_calls-signals m t p unit dtype rank root (suc n) (suc l) = refl

pub append-Silent :
    (s : Node) (acts : List Act) → signals acts ≡ [] → Silent s (record s { acts = s.acts ++ acts })
append-Silent s acts e = record {
  same_nccl = refl;
  same_signals =
      signals-append s.acts acts
      ∙ ap (λ (l : List BytePsCommMsg). signals s.acts ++ l) e
      ∙ append-nil (signals s.acts);
}

pub post_nccl_calls-Silent :
    (d : Device) (t : Task) (b : Bool) (s s' : Node)
    → post_nccl_calls d t (stage b) s ≡ ok s'
    → Silent s s'
unfolding post_nccl_calls
post_nccl_calls-Silent d t true s s' run =
    let (x, e0, run1) = >>=-eq-ok (or_fail t.tensor check_failed) _ run in
    let (unit, e1, run2) = >>=-eq-ok (unit_len d x) _ run1 in
    let (c, e2, run3) = >>=-eq-ok (check (x.size % d.num_elements x.id == 0)) _ run2 in
    let (r, e3, run4) = >>=-eq-ok (call_shares d s.nccl t.key unit t.len) _ run3 in
    let (n, e4, run5) = >>=-eq-ok (check (is_named t.tensor_name)) _ run4 in
    let (output, e5, made) = >>=-eq-ok (or_fail t.output null_pointer) _ run5 in
    subst (Silent s) (ok_inj made) (append-Silent s _ (reduce_calls-signals _ _ _ _ _ _ _ _ _ _))
post_nccl_calls-Silent d t false s s' run =
    let (x, e0, run1) = >>=-eq-ok (or_fail t.output check_failed) _ run in
    let (unit, e1, run2) = >>=-eq-ok (unit_len d x) _ run1 in
    let (c, e2, run3) = >>=-eq-ok (check (x.size % d.num_elements x.id == 0)) _ run2 in
    let (r, e3, run4) = >>=-eq-ok (call_shares d s.nccl t.key unit t.len) _ run3 in
    let (n, e4, made) = >>=-eq-ok (check (is_named t.tensor_name)) _ run4 in
    subst (Silent s) (ok_inj made) (append-Silent s _ (broadcast_calls-signals _ _ _ _ _ _ _ _ _))
