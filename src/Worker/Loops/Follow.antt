-- ===== src/Worker/Loops/Follow.antt =====
-- The group that another device makes of the root's signals.
use mathlib.Core.List.{append_assoc, append-nil, map-append}
use deep_inc.Base.{
  ℕ, ◌≡◌, ◌∙◌, refl, sym, ap, subst, Bool, true, false, ◌==◌, not, ==→eq, if◌then◌else◌, Option,
  none, some, List, [], ◌∷◌, ◌++◌, map, Result, Fault, ok, fail, check_failed, check, or_fail,
  ◌>>=◌, >>=-eq-ok, ok_inj,
}
use deep_inc.Common.{QueueType}
use deep_inc.Worker.State.{Task, is_named}
use deep_inc.Worker.ScheduledQueue.{
  QueueState, take_key, behind_ok, hand_out, recorder_ts, get_task_by_key, event_ready,
}
use deep_inc.Worker.Nccl.{NcclGroupEntry}
use deep_inc.Worker.Tasks.{BytePsCommMsg, do_group}
use deep_inc.Worker.Loops.{Device, Node, next_task_by_key, post_nccl_calls, stage_state}
use deep_inc.Worker.Loops.Groups.{group_push, signal_of, comm_message, stage_of, join_group}
use deep_inc.Worker.Loops.Signals.{
  order_message, key_of, stage, stage_name, signals, Order, Silent, post_nccl_calls-Silent,
}

take_key-cons :
    (b c : Bool) (key : ℕ) (u : Task) (us : List Task) (o : Result (Option (Task × List Task)))
    (t : Task) (rest : List Task)
    → ((vs : List Task) → o ≡ ok (some (t, vs)) → t.key ≡ key)
    → (u.key == key) ≡ c
    → (if b then if c then ok (some (u, us)) else behind_ok u o else fail check_failed)
      ≡ ok (some (t, rest))
    → t.key ≡ key
take_key-cons false c key u us o t rest later at run = cc
take_key-cons true true key u us o t rest later at run =
    let same : u ≡ t = cc in subst (λ (x : Task). x.key ≡ key) same (==→eq u.key key at)
take_key-cons true false key u us (fail e) t rest later at run = cc
take_key-cons true false key u us (ok none) t rest later at run = cc
take_key-cons true false key u us (ok (some (v, vs))) t rest later at run =
    let same : v ≡ t = cc in later vs (ap (λ (x : Task). ok (some (x, vs))) same)

take_key-key :
    (ready : ℕ → Bool) (key : ℕ) (ts : List Task) (t : Task) (rest : List Task)
    → take_key ready key ts ≡ ok (some (t, rest))
    → t.key ≡ key
unfolding take_key
take_key-key ready key [] t rest run = cc
take_key-key ready key (u ∷ us) t rest run =
    take_key-cons (event_ready ready u) (u.key == key) key u us (take_key ready key us) t rest
      (λ vs e. take_key-key ready key us t vs e) refl run

hand_out-key :
    (now : ℕ) (s : QueueState) (t : Task) (rest : List Task) (r : Option Task × QueueState)
    (u : Task)
    → hand_out now s t rest ≡ ok r
    → r.0 ≡ some u
    → u.key ≡ t.key
unfolding hand_out
hand_out-key now s t rest r u run is =
    let (n, named, run1) = >>=-eq-ok (check (is_named t.tensor_name)) _ run in
    let (c, recorded, made) =
      >>=-eq-ok (recorder_ts now (record t { ready_event = none }) s.contexts) _ run1 in
    let same : some (record t { ready_event = none }) ≡ some u =
      ap (λ (p : Option Task × QueueState). p.0) (ok_inj made) ∙ is in
    let out : record t { ready_event = none } ≡ u = cc in ap (λ (x : Task). x.key) (sym out)

found-key :
    (ready : ℕ → Bool) (now key : ℕ) (s : QueueState) (o : Option (Task × List Task))
    (r : Option Task × QueueState) (u : Task)
    → take_key ready key s.queue.sq ≡ ok o
    → elim o [ none ↦ ok (none, s) | some (t, rest) ↦ hand_out now s t rest ] ≡ ok r
    → r.0 ≡ some u
    → u.key ≡ key
found-key ready now key s none r u found run is =
    let same : none ≡ some u = ap (λ (p : Option Task × QueueState). p.0) (ok_inj run) ∙ is in cc
found-key ready now key s (some (t, rest)) r u found run is =
    hand_out-key now s t rest r u run is ∙ take_key-key ready key s.queue.sq t rest found

get_task_by_key-key :
    (ready : ℕ → Bool) (now key : ℕ) (s : QueueState) (r : Option Task × QueueState) (u : Task)
    → get_task_by_key ready now s key ≡ ok r
    → r.0 ≡ some u
    → u.key ≡ key
unfolding get_task_by_key
get_task_by_key-key ready now key s r u run is =
    let (n, plain, run1) = >>=-eq-ok (check (not s.queue.is_scheduled)) _ run in
    let (o, found, run2) = >>=-eq-ok (take_key ready key s.queue.sq) _ run1 in
    found-key ready now key s o r u found run2 is

-- The task of a key, with the manager left alone.
next_task_by_key-Silent :
    (ready : ℕ → Bool) (now : ℕ) (op : QueueType) (key : ℕ) (s : Node) (r : Option Task × Node)
    → next_task_by_key ready now op key s ≡ ok r
    → Silent s r.1 × ((t : Task) → r.0 ≡ some t → t.key ≡ key)
unfolding next_task_by_key
next_task_by_key-Silent ready now op key s r run =
    let (q, got, made) = >>=-eq-ok (get_task_by_key ready now (stage_state s.world op) key) _ run in
    (
      record {
        same_nccl = ap (λ (p : Option Task × Node). p.1.nccl) (sym (ok_inj made));
        same_signals = ap (λ (p : Option Task × Node). signals p.1.acts) (sym (ok_inj made));
      },
      λ t is.
          get_task_by_key-key ready now key (stage_state s.world op) q t got
            (ap (λ (p : Option Task × Node). p.0) (ok_inj made) ∙ is),
    )

stage_of-stage : (b : Bool) → stage_of (signal_of (stage b)) ≡ ok (some (stage b))
unfolding stage_of
stage_of-stage true = refl
stage_of-stage false = refl

-- A group and a node, after taking orders.
pub record Followed (orders : List Order) (rest : List BytePsCommMsg) (e : NcclGroupEntry)
    (s : Node) (r : Option NcclGroupEntry × List BytePsCommMsg × Node) : Type 0 where
  pub group : NcclGroupEntry
  pub is_group : r.0 ≡ some group
  pub left : r.1 ≡ rest
  pub keys : map key_of group.tasks ≡ map key_of e.tasks ++ map (λ (o : Order). o.1) orders
  pub queues : group.queues ≡ e.queues ++ map stage_name orders
  pub same_nccl : r.2.nccl ≡ s.nccl

or_fail-some : {A : Type 0} (o : Option A) (f : Fault) (a : A) → or_fail o f ≡ ok a → o ≡ some a
or_fail-some none f a e = cc
or_fail-some (some b) f a e = ap some (ok_inj e)

pub join_group-Followed :
    (d : Device) (ready : ℕ → Bool) (now rank : ℕ) (orders : List Order) (rest : List BytePsCommMsg)
    (e : NcclGroupEntry) (s : Node) (r : Option NcclGroupEntry × List BytePsCommMsg × Node)
    → join_group d ready now
        (map (order_message rank) orders ++ comm_message rank do_group 0 ∷ rest)
        e
        s
      ≡ ok r
    → Followed orders rest e s r
unfolding join_group stage_of
join_group-Followed d ready now rank [] rest e s r run = record {
  group = e;
  is_group = ap (λ (p : Option NcclGroupEntry × List BytePsCommMsg × Node). p.0) (sym (ok_inj run));
  left = ap (λ (p : Option NcclGroupEntry × List BytePsCommMsg × Node). p.1) (sym (ok_inj run));
  keys = sym (append-nil _);
  queues = sym (append-nil _);
  same_nccl =
      ap (λ (p : Option NcclGroupEntry × List BytePsCommMsg × Node). p.2.nccl) (sym (ok_inj run));
}
join_group-Followed d ready now rank ((b, key) ∷ orders) rest e s r run =
    let more = map (order_message rank) orders ++ comm_message rank do_group 0 ∷ rest in
    let after : Option QueueType → Result (Option NcclGroupEntry × List BytePsCommMsg × Node) =
      λ op. elim op [
        | none ↦ ok (some e, more, s)
        | some op ↦ next_task_by_key ready now op key s >>= λ q. or_fail q.0 check_failed >>= λ t.
            post_nccl_calls d t op q.1 >>= λ u. join_group d ready now more (group_push e t op) u
      ] in
    let run0 : after (some (stage b)) ≡ ok r =
      subst (λ (x : Result (Option QueueType)). (x >>= after) ≡ ok r) (stage_of-stage b) run in
    let (q, got, run1) = >>=-eq-ok (next_task_by_key ready now (stage b) key s) _ run0 in
    let (t, is, run2) = >>=-eq-ok (or_fail q.0 check_failed) _ run1 in
    let (u, posted, run3) = >>=-eq-ok (post_nccl_calls d t (stage b) q.1) _ run2 in
    let (quiet, its_key) = next_task_by_key-Silent ready now (stage b) key s q got in
    let loud = post_nccl_calls-Silent d t b q.1 u posted in
    let f = join_group-Followed d ready now rank orders rest (group_push e t (stage b)) u r run3 in
    let key_is : t.key ≡ key = its_key t (or_fail-some q.0 check_failed t is) in
    record {
      group = f.group;
      is_group = f.is_group;
      left = f.left;
      keys =
          f.keys
          ∙ ap (λ (l : List ℕ). l ++ map (λ (o : Order). o.1) orders)
              (map-append key_of e.tasks (t ∷ [])
                ∙ ap (λ (k : ℕ). map key_of e.tasks ++ k ∷ []) key_is)
          ∙ append_assoc (map key_of e.tasks) (key ∷ []) _;
      queues = f.queues ∙ append_assoc e.queues (stage b ∷ []) _;
      same_nccl = f.same_nccl ∙ loud.same_nccl ∙ quiet.same_nccl;
    }
