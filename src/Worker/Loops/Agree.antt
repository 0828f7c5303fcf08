-- ===== src/Worker/Loops/Agree.antt =====
-- The groups of a switch's root and of its other devices, side by side.
use mathlib.Core.List.{append_assoc, append-nil, append_cancel_left, nil≢cons}
use deep_inc.Base.{
  ℕ, ◌<◌, ◌≡◌, ◌≢◌, ◌∙◌, refl, sym, ap, subst, Bool, true, false, ◌==◌, not, Option, some, List, [],
  ◌∷◌, ◌++◌, map, ok, check, >>=-eq-ok, ok_inj,
}
use deep_inc.Common.{reduce, broadcast}
use deep_inc.Worker.State.{Task}
use deep_inc.Worker.Nccl.{NcclManager, NcclGroupEntry, record_events, enqueue_group}
use deep_inc.Worker.Tasks.{BytePsCommMsg, do_group}
use deep_inc.Worker.Loops.{Device, Node, signal_switch, act}
use deep_inc.Worker.Loops.Groups.{
  no_group, comm_message, group_tasks, end_group, close_group, keep_group, run_root_nccl_loop_once,
  join_group, run_non_root_nccl_loop_once,
}
use deep_inc.Worker.Loops.Signals.{
  order_message, key_of, stage_name, signals, signals-append, Order,
}
use deep_inc.Worker.Loops.Root.{Grew, Grew-trans, group_tasks-Taken}
use deep_inc.Worker.Loops.Follow.{join_group-Followed}

-- The signals of a group: its orders and the end, or nothing for an empty one.
abbrev round_signals : ℕ → List Order → List BytePsCommMsg
round_signals rank [] = []
round_signals rank (o ∷ orders) =
    map (order_message rank) (o ∷ orders) ++ comm_message rank do_group 0 ∷ []

-- What a group is of: the keys of its tasks, and their stages.
pub record Covers (orders : List Order) (e : NcclGroupEntry) : Type 0 where
  pub keys : map key_of e.tasks ≡ map (λ (o : Order). o.1) orders
  pub queues : e.queues ≡ map stage_name orders

abbrev groups : List Order → NcclGroupEntry → List NcclGroupEntry
groups [] e = []
groups (o ∷ orders) e = e ∷ []

-- What a round of the root has done.
record RootRound (rank : ℕ) (s s' : Node) : Type 0 where
  orders : List Order
  group : NcclGroupEntry
  covers : Covers orders group
  signalled : signals s'.acts ≡ signals s.acts ++ round_signals rank orders
  pipeline : s'.nccl.nccl_pipeline ≡ s.nccl.nccl_pipeline ++ groups orders group

close_group-nil :
    (d : Device) (e : NcclGroupEntry) (u : Node) → e.tasks ≡ [] → close_group d e u ≡ u
unfolding close_group
close_group-nil d e u is = rw is refl

close_group-cons :
    (d : Device) (e : NcclGroupEntry) (u : Node) (t : Task) (ts : List Task)
    → e.tasks ≡ t ∷ ts
    → close_group d e u ≡ end_group e (act u (signal_switch (comm_message d.local_rank do_group 0)))
unfolding close_group
close_group-cons d e u t ts is = rw is refl

close_group-RootRound :
    (d : Device) (s u : Node) (orders : List Order) (e : NcclGroupEntry) (ts : List Task)
    → e.tasks ≡ ts
    → Grew d.local_rank no_group s orders e u
    → RootRound d.local_rank s (close_group d e u)
unfolding end_group record_events enqueue_group
close_group-RootRound d s u [] e [] is grew =
    subst (RootRound d.local_rank s) (sym (close_group-nil d e u is)) (record {
      orders = [];
      group = e;
      covers = record { keys = grew.keys; queues = grew.queues };
      signalled = grew.signalled;
      pipeline = ap (λ (m : NcclManager). m.nccl_pipeline) grew.same_nccl ∙ sym (append-nil _);
    })
close_group-RootRound d s u (o ∷ orders) e (t ∷ ts) is grew =
    subst (RootRound d.local_rank s) (sym (close_group-cons d e u t ts is)) (record {
      orders = o ∷ orders;
      group = record_events u.nccl e;
      covers = record { keys = grew.keys; queues = grew.queues };
      signalled =
          signals-append u.acts _
          ∙ ap (λ (l : List BytePsCommMsg). l ++ comm_message d.local_rank do_group 0 ∷ [])
              grew.signalled
          ∙ append_assoc (signals s.acts) _ _;
      pipeline =
          ap (λ (m : NcclManager). m.nccl_pipeline ++ record_events u.nccl e ∷ []) grew.same_nccl;
    })
close_group-RootRound d s u [] e (t ∷ ts) is grew =
    let none : map key_of (t ∷ ts) ≡ [] =
      subst (λ (l : List Task). map key_of l ≡ []) is grew.keys in
    absurd (nil≢cons (sym none))
close_group-RootRound d s u (o ∷ orders) e [] is grew =
    let none : [] ≡ map (λ (o : Order). o.1) (o ∷ orders) =
      subst (λ (l : List Task). map key_of l ≡ map (λ (o : Order). o.1) (o ∷ orders)) is
        grew.keys in
    absurd (nil≢cons none)

run_root-RootRound :
    (d : Device) (ready : ℕ → Bool) (now : ℕ) (s s' : Node)
    → 1 < s.nccl.nccl_size
    → run_root_nccl_loop_once d ready now s ≡ ok s'
    → RootRound d.local_rank s s'
unfolding run_root_nccl_loop_once
run_root-RootRound d ready now s s' many run =
    let (n, at_root, run1) = >>=-eq-ok (check (d.local_rank == d.signal_root)) _ run in
    let (r, reduced, run2) =
      >>=-eq-ok (group_tasks d ready now reduce s.nccl.nccl_group_size no_group s) _ run1 in
    let (q, sent, made) =
      >>=-eq-ok (group_tasks d ready now broadcast r.1.nccl.nccl_group_size r.0 r.1) _ run2 in
    let (os, g) = group_tasks-Taken d ready now true _ no_group s r many reduced in
    let (ps, h) =
      group_tasks-Taken d ready now false _ r.0 r.1 q
        (subst (λ (m : NcclManager). 1 < m.nccl_size) (sym g.same_nccl) many) sent in
    subst (RootRound d.local_rank s) (ok_inj made) (
      close_group-RootRound d s q.1 (os ++ ps) q.0 q.0.tasks refl
        (Grew-trans d.local_rank no_group r.0 q.0 s r.1 q.1 os ps g h))

-- The groups that the root and another device have kept.
pub record GroupsAgree (s s' t t' : Node) : Type 0 where
  pub root_group : NcclGroupEntry
  pub other_group : NcclGroupEntry
  pub root_keeps : s'.nccl.nccl_pipeline ≡ s.nccl.nccl_pipeline ++ root_group ∷ []
  pub other_keeps : t'.nccl.nccl_pipeline ≡ t.nccl.nccl_pipeline ++ other_group ∷ []
  pub same_keys : map key_of other_group.tasks ≡ map key_of root_group.tasks
  pub same_stages : other_group.queues ≡ root_group.queues

keep_group-pipeline :
    (o : Option NcclGroupEntry) (u : Node) (e : NcclGroupEntry)
    → o ≡ some e
    → (keep_group o u).nccl.nccl_pipeline ≡ u.nccl.nccl_pipeline ++ record_events u.nccl e ∷ []
unfolding end_group enqueue_group record_events
keep_group-pipeline o u e is = rw is refl

follow :
    (rank : ℕ) (orders : List Order) (group : NcclGroupEntry) (d : Device) (ready : ℕ → Bool)
    (now : ℕ) (s s' t : Node) (rest new : List BytePsCommMsg) (r : List BytePsCommMsg × Node)
    → Covers orders group
    → s'.nccl.nccl_pipeline ≡ s.nccl.nccl_pipeline ++ groups orders group
    → new ≡ round_signals rank orders
    → new ≢ []
    → run_non_root_nccl_loop_once d ready now (new ++ rest) t ≡ ok r
    → (r.0 ≡ rest) × GroupsAgree s s' t r.1
unfolding run_non_root_nccl_loop_once record_events
follow rank [] group d ready now s s' t rest new r covers kept is some_signal run =
    absurd (some_signal is)
follow rank (o ∷ orders) group d ready now s s' t rest new r covers kept is some_signal run =
    let (n, apart, run1) = >>=-eq-ok (check (not (d.local_rank == d.signal_root))) _ run in
    let (q, joined, made) = >>=-eq-ok (join_group d ready now (new ++ rest) no_group t) _ run1 in
    let whole : new ++ rest
        ≡ map (order_message rank) (o ∷ orders) ++ comm_message rank do_group 0 ∷ rest =
      ap (λ (l : List BytePsCommMsg). l ++ rest) is
      ∙ append_assoc (map (order_message rank) (o ∷ orders)) (comm_message rank do_group 0 ∷ [])
          rest in
    let f = join_group-Followed d ready now rank (o ∷ orders) rest no_group t q (
      subst (λ (l : List BytePsCommMsg). join_group d ready now l no_group t ≡ ok q) whole
        joined) in
    let ends : r.1.nccl.nccl_pipeline
        ≡ t.nccl.nccl_pipeline ++ record_events q.2.nccl f.group ∷ [] =
      ap (λ (p : List BytePsCommMsg × Node). p.1.nccl.nccl_pipeline) (sym (ok_inj made))
      ∙ keep_group-pipeline q.0 q.2 f.group f.is_group
      ∙ ap (λ (m : NcclManager). m.nccl_pipeline ++ record_events q.2.nccl f.group ∷ [])
          f.same_nccl in
    (
      ap (λ (p : List BytePsCommMsg × Node). p.0) (sym (ok_inj made)) ∙ f.left,
      record {
        root_group = group;
        other_group = record_events q.2.nccl f.group;
        root_keeps = kept;
        other_keeps = ends;
        same_keys = f.keys ∙ sym covers.keys;
        same_stages = f.queues ∙ sym covers.queues;
      },
    )

-- Takes a switch of more than one device, a round of its root that returns, the signals that this
-- round has sent, of which there is one, and a round of another device that reads these signals
-- with any more behind them and returns. The other device leaves exactly what is behind them, each
-- of the two has put one group at the end of its pipeline, and the two groups have tasks of the
-- same keys for the same stages, in the same order.
pub join_group-GroupsAgree :
    (d other : Device) (ready other_ready : ℕ → Bool) (now other_now : ℕ) (s s' t : Node)
    (new rest : List BytePsCommMsg) (r : List BytePsCommMsg × Node)
    → 1 < s.nccl.nccl_size
    → run_root_nccl_loop_once d ready now s ≡ ok s'
    → signals s'.acts ≡ signals s.acts ++ new
    → new ≢ []
    → run_non_root_nccl_loop_once other other_ready other_now (new ++ rest) t ≡ ok r
    → (r.0 ≡ rest) × GroupsAgree s s' t r.1
join_group-GroupsAgree d other ready other_ready now other_now s s' t new rest r many run sent
      some_signal joined =
    let round = run_root-RootRound d ready now s s' many run in
    follow d.local_rank round.orders round.group other other_ready other_now s s' t rest new r
      round.covers round.pipeline
      (append_cancel_left (signals s.acts) new _ (sym sent ∙ round.signalled)) some_signal joined
