-- ===== src/Worker/Loops/Root.antt =====
-- The group that a switch's root makes, and what it signals for it.
use mathlib.Core.List.{append_assoc, append-nil, map-append}
use deep_inc.Base.{
  ℕ, zero, suc, ◌<◌, ◌≡◌, ◌∙◌, refl, sym, ap, subst, Bool, lt→ltb, if◌then◌else◌, Option, none,
  some, List, [], ◌∷◌, ◌++◌, map, ok, ◌>>=◌, >>=-eq-ok, ok_inj,
}
use deep_inc.Worker.State.{Task}
use deep_inc.Worker.Nccl.{NcclManager, NcclGroupEntry}
use deep_inc.Worker.Loops.{Device, Node, signal_switch, act, next_task, post_nccl_calls}
use deep_inc.Worker.Loops.Groups.{group_push, signal_of, comm_message, announce_task, group_tasks}
use deep_inc.Worker.Loops.Signals.{
  order_message, key_of, stage, stage_name, signals, signals-append, Order, Silent,
  next_task-Silent, post_nccl_calls-Silent,
}

-- A group that has taken these orders, for which the device has signalled them.
pub record Grew (rank : ℕ) (e : NcclGroupEntry) (s : Node) (orders : List Order)
    (e' : NcclGroupEntry) (s' : Node) : Type 0 where
  pub keys : map key_of e'.tasks ≡ map key_of e.tasks ++ map (λ (o : Order). o.1) orders
  pub queues : e'.queues ≡ e.queues ++ map stage_name orders
  pub signalled : signals s'.acts ≡ signals s.acts ++ map (order_message rank) orders
  pub same_nccl : s'.nccl ≡ s.nccl

pub Grew-Silent :
    (rank : ℕ) (e : NcclGroupEntry) (s s' : Node) → Silent s s' → Grew rank e s [] e s'
Grew-Silent rank e s s' quiet = record {
  keys = sym (append-nil _);
  queues = sym (append-nil _);
  signalled = quiet.same_signals ∙ sym (append-nil _);
  same_nccl = quiet.same_nccl;
}

pub joined :
    {A : Type 0} (xs us vs : List A) {ys zs ws : List A}
    → ys ≡ xs ++ us
    → zs ≡ ys ++ vs
    → ws ≡ us ++ vs
    → zs ≡ xs ++ ws
joined {A} xs us vs e f g =
    f
    ∙ ap (λ (l : List A). l ++ vs) e
    ∙ append_assoc xs us vs
    ∙ ap (λ (l : List A). xs ++ l) (sym g)

pub Grew-trans :
    (rank : ℕ) (e e₁ e₂ : NcclGroupEntry) (s s₁ s₂ : Node) (os ps : List Order)
    → Grew rank e s os e₁ s₁
    → Grew rank e₁ s₁ ps e₂ s₂
    → Grew rank e s (os ++ ps) e₂ s₂
Grew-trans rank e e₁ e₂ s s₁ s₂ os ps g h = record {
  keys = joined _ _ _ g.keys h.keys (map-append (λ (o : Order). o.1) os ps);
  queues = joined _ _ _ g.queues h.queues (map-append stage_name os ps);
  signalled = joined _ _ _ g.signalled h.signalled (map-append (order_message rank) os ps);
  same_nccl = h.same_nccl ∙ g.same_nccl;
}

pub announce_task-Grew :
    (d : Device) (t : Task) (b : Bool) (e : NcclGroupEntry) (s s' : Node)
    → 1 < s.nccl.nccl_size
    → announce_task d t (stage b) s ≡ ok s'
    → Grew d.local_rank e s ((b, t.key) ∷ []) (group_push e t (stage b)) s'
unfolding announce_task
announce_task-Grew d t b e s s' many run =
    let on = lt→ltb 1 s.nccl.nccl_size many in
    let told = act s (signal_switch (comm_message d.local_rank (signal_of (stage b)) t.key)) in
    let posted : post_nccl_calls d t (stage b) told ≡ ok s' =
      subst (λ (x : Bool). (if x then post_nccl_calls d t (stage b) told else ok s) ≡ ok s') on
        run in
    let quiet = post_nccl_calls-Silent d t b told s' posted in
    record {
      keys = map-append key_of e.tasks (t ∷ []);
      queues = refl;
      signalled = quiet.same_signals ∙ signals-append s.acts _;
      same_nccl = quiet.same_nccl;
    }

-- What a stage has put in a group.
abbrev pub Taken : ℕ → NcclGroupEntry → Node → NcclGroupEntry × Node → Type 0
Taken rank e s r = (orders : List Order) × Grew rank e s orders r.0 r.1

pub group_tasks-next :
    (d : Device) (ready : ℕ → Bool) (now : ℕ) (b : Bool) (n : ℕ) (e : NcclGroupEntry) (s u : Node)
    (o : Option Task) (r : NcclGroupEntry × Node)
    → ((e₁ : NcclGroupEntry) (s₁ : Node)
        → 1 < s₁.nccl.nccl_size
        → group_tasks d ready now (stage b) n e₁ s₁ ≡ ok r
        → Taken d.local_rank e₁ s₁ r)
    → 1 < s.nccl.nccl_size
    → Silent s u
    → elim o [
      | none ↦ ok (e, u)
      | some t ↦ announce_task d t (stage b) u >>= λ v.
          group_tasks d ready now (stage b) n (group_push e t (stage b)) v
    ]
      ≡ ok r
    → Taken d.local_rank e s r
group_tasks-next d ready now b n e s u none r rest many quiet run = (
  [],
  subst (λ (p : NcclGroupEntry × Node). Grew d.local_rank e s [] p.0 p.1) (ok_inj run)
      (Grew-Silent d.local_rank e s u quiet),
)
group_tasks-next d ready now b n e s u (some t) r rest many quiet run =
    let (v, told, run1) = >>=-eq-ok (announce_task d t (stage b) u) _ run in
    let same : u.nccl ≡ s.nccl = quiet.same_nccl in
    let still = subst (λ (m : NcclManager). 1 < m.nccl_size) (sym same) many in
    let one = announce_task-Grew d t b e u v still told in
    let start =
      Grew-trans d.local_rank e e (group_push e t (stage b)) s u v [] ((b, t.key) ∷ [])
        (Grew-Silent d.local_rank e s u quiet) one in
    let (orders, grew) =
      rest (group_push e t (stage b)) v
        (subst (λ (m : NcclManager). 1 < m.nccl_size) (sym start.same_nccl) many) run1 in
    (
      _,
      Grew-trans d.local_rank e (group_push e t (stage b)) r.0 s v r.1 ((b, t.key) ∷ []) orders
          start grew,
    )

pub group_tasks-Taken :
    (d : Device) (ready : ℕ → Bool) (now : ℕ) (b : Bool) (n : ℕ) (e : NcclGroupEntry) (s : Node)
    (r : NcclGroupEntry × Node)
    → 1 < s.nccl.nccl_size
    → group_tasks d ready now (stage b) n e s ≡ ok r
    → Taken d.local_rank e s r
unfolding group_tasks
group_tasks-Taken d ready now b zero e s r many run = (
  [],
  subst (λ (p : NcclGroupEntry × Node). Grew d.local_rank e s [] p.0 p.1) (ok_inj run)
      (Grew-Silent d.local_rank e s s (record { same_nccl = refl; same_signals = refl })),
)
group_tasks-Taken d ready now b (suc n) e s r many run =
    let (q, got, run1) = >>=-eq-ok (next_task ready now (stage b) s) _ run in
    group_tasks-next d ready now b n e s q.1 q.0 r
      (λ e₁ s₁ many₁ run₁. group_tasks-Taken d ready now b n e₁ s₁ r many₁ run₁) many
      (next_task-Silent ready now (stage b) s q got) run1
