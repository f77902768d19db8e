-- ===== src/Infrastructure/Failover/Invariant.antt =====
-- One active node at a time: the operations of backend/infrastructure/failover_manager.py as the
-- steps of a relation.
use dutchkem_trading_ai.Infrastructure.Failover.Switching.{
  fail_over-err, fail_over-ok, fail_over-none, fail_node,
}
use dutchkem_trading_ai.Common.Int.{ℤ}
use dutchkem_trading_ai.Infrastructure.Selection.{or_text, truthy}
use dutchkem_trading_ai.Common.Dict.{
  contains, lookup-modify, lookup-insert, modify, apply_some, lookup, Dict,
}
use dutchkem_trading_ai.Common.{
  none, refl, inr, eq_iff, Bool-cases, some, inl, arith, str_eq, Option-cases, Option, ℕ, String,
  ◌≡◌, true, false, [], ◌∷◌,
}
use dutchkem_trading_ai.Infrastructure.Failover.{
  set_state, select_backup_node, fail_over, trigger_recovery, trigger_failover, or_text, announce,
  hear, step_down, ℤ, check_node, truthy, set_active_node, register_node, heartbeat, check_nodes,
  check_failures, Dict,
}
use dutchkem_trading_ai.Infrastructure.Nodes.{
  failover_in_progress, recovering, in_progress, active, standby, is_failed, Node, Manager,
  set_status, is_active,
}

-- Only the node that is held as active is marked active, and its name is not empty.
pub record IsSingle (d : Dict Node) (a : Option String) : Type 0 where
  pub marked :
      (k : String) (n : Node) → lookup k d ≡ some n → is_active n.status ≡ true → a ≡ some k
  pub named : (k : String) → a ≡ some k → str_eq k "" ≡ false

abbrev pub HasOneActive : Manager → Type 0
HasOneActive m = IsSingle m.nodes m.active_node_id

-- A write to one node that never marks it active.
pub modify-IsSingle :
    (k : String) (f : Node → Node) (d : Dict Node) (a : Option String)
    → ((n : Node) → is_active (f n).status ≡ true → is_active n.status ≡ true)
    → IsSingle d a
    → IsSingle (modify k f d) a
modify-IsSingle k f d a h i = record {
  marked = λ j n e t. elim (Option-cases (lookup j d)) [
    | inl e' ↦ ground (arith, lookup-modify k j f d)
    | inr (q, e') ↦ ground (arith, lookup-modify k j f d, i.marked j q e', h q)
  ];
  named = i.named;
}

pub register_node-IsSingle :
    (k h : String) (p : ℕ) (prio : ℤ) (meta : Option (Dict String)) (now : ℕ) (m : Manager)
    → HasOneActive m
    → HasOneActive (register_node k h p prio meta now m)
unfolding register_node
register_node-IsSingle k h p prio meta now m i = record {
  marked = λ j n e t. ground (
    arith,
    lookup-insert k j
        (record {
          host = h;
          port = p;
          priority = prio;
          status = standby;
          last_heartbeat = now;
          missed_heartbeats = 0;
          failover_count = 0;
          metadata = elim meta [ none ↦ [] | some d ↦ d ];
        })
        m.nodes,
    i.marked j n,
  );
  named = i.named;
}

-- The nodes once the active one has stepped down: none is marked active.
step_down-none :
    (d : Dict Node) (a : Option String) (j : String) (n : Node)
    → IsSingle d a
    → lookup j (step_down (truthy a) d) ≡ some n
    → is_active n.status ≡ false
unfolding truthy
step_down-none d none j n i e = ground (arith, i.marked j n e)
step_down-none d (some s) j n i e = elim (Option-cases (lookup j d)) [
  | inl e' ↦ ground (arith, i.named s refl, lookup-modify s j (set_status standby) d)
  | inr (q, e') ↦
      ground (
        arith,
        i.named s refl,
        lookup-modify s j (set_status standby) d,
        i.marked j q e',
        eq_iff s j,
      )
]

pub set_active_node-IsSingle :
    (k : String) (m : Manager)
    → str_eq k "" ≡ false
    → HasOneActive m
    → HasOneActive (set_active_node k m)
unfolding set_active_node
set_active_node-IsSingle k m s i =
    let d = step_down (truthy m.active_node_id) m.nodes in
    elim (Bool-cases (contains k m.nodes)) [
      | inl c ↦ rw c (record {
        marked = λ j n e t. ground (
          arith,
          lookup-modify k j (set_status active) d,
          step_down-none m.nodes m.active_node_id j n i,
          eq_iff k j,
        );
        named = λ j e. ground arith;
      })
      | inr c ↦ rw c i
    ]

pub heartbeat-IsSingle :
    (k : String) (now : ℕ) (m : Manager) → HasOneActive m → HasOneActive (heartbeat k now m).1
unfolding heartbeat
heartbeat-IsSingle k now m i =
    let i' = modify-IsSingle k (hear now) m.nodes m.active_node_id (λ q t. ground arith) i in
    elim (Option-cases (lookup k m.nodes)) [
      | inl e ↦ rw (e, heartbeat) i
      | inr (n, e) ↦ elim (Bool-cases (is_failed n.status)) [
        | inl c ↦ rw (e, heartbeat) (rw c i')
        | inr c ↦ rw (e, heartbeat) (rw c i')
      ]
    ]

pub check_nodes-lookup :
    (t v : ℕ) (a : Option String) (now : ℕ) (j : String) (d : Dict Node)
    → lookup j (check_nodes t v a now d).0 ≡ apply_some (check_node t v a now j) (lookup j d)
unfolding check_nodes lookup
check_nodes-lookup t v a now j [] = refl
check_nodes-lookup t v a now j ((k, n) ∷ d) =
    ground (arith, eq_iff k j, check_nodes-lookup t v a now j d)

pub check_failures-IsSingle :
    (t v now : ℕ) (m : Manager) → HasOneActive m → HasOneActive (check_failures t v now m).1
unfolding check_failures check_node
check_failures-IsSingle t v now m i = record {
  marked = λ j n e s. elim (Option-cases (lookup j m.nodes)) [
    | inl e' ↦ ground (arith, check_nodes-lookup t v m.active_node_id now j m.nodes)
    | inr (q, e') ↦
        ground (arith, check_nodes-lookup t v m.active_node_id now j m.nodes, i.marked j q e')
  ];
  named = i.named;
}

pub truthy-named :
    (o : Option String) (k : String) → truthy o ≡ some k → (o ≡ some k) × (str_eq k "" ≡ false)
unfolding truthy
truthy-named none k h = ground arith
truthy-named (some s) k h = ground arith

pub or_text-named : (a b : Option String) (k : String) → or_text a b ≡ some k → str_eq k "" ≡ false
unfolding or_text
or_text-named a b k h = elim (Option-cases (truthy a)) [
  | inl e ↦ ground (arith, truthy-named b k)
  | inr (s, e) ↦ ground (arith, truthy-named a s)
]

-- Once the active node is marked failed, no node is marked active.
fail_node-none :
    (source : String) (d : Dict Node) (j : String) (n : Node)
    → IsSingle d (some source)
    → lookup j (modify source fail_node d) ≡ some n
    → is_active n.status ≡ false
fail_node-none source d j n i e = elim (Option-cases (lookup j d)) [
  | inl e' ↦ ground (arith, lookup-modify source j fail_node d)
  | inr (q, e') ↦
      ground (arith, lookup-modify source j fail_node d, i.marked j q e', eq_iff source j)
]

switched-IsSingle :
    (source t : String) (d : Dict Node)
    → IsSingle d (some source)
    → str_eq t "" ≡ false
    → IsSingle (modify t (set_status active) (modify source fail_node d)) (some t)
switched-IsSingle source t d i s = record {
  marked = λ j n e c. ground (
    arith,
    lookup-modify t j (set_status active) (modify source fail_node d),
    fail_node-none source d j n i,
    eq_iff t j,
  );
  named = λ j e. ground arith;
}

fail_over-IsSingle :
    (source : String) (target : Option String) (start now : ℕ) (m : Manager)
    → m.active_node_id ≡ some source
    → HasOneActive m
    → HasOneActive (fail_over source target start now m).1
unfolding announce
fail_over-IsSingle source target start now m a i =
    elim (Option-cases (or_text target (select_backup_node source m))) [
      | inl e ↦ rw (fail_over-none source target start now m e) i
      | inr (t, e) ↦ elim (Bool-cases (contains t m.nodes)) [
        | inl c ↦ rw (fail_over-ok source t target start now m e c) (
            switched-IsSingle source t m.nodes (rw a at i)
              (or_text-named target (select_backup_node source m) t e))
        | inr c ↦
            rw (fail_over-err source t target start now m e c)
              (modify-IsSingle source fail_node m.nodes m.active_node_id (λ q t. ground arith) i)
      ]
    ]

-- the source, where one is named, is the active node
pub trigger_failover-IsSingle :
    (source target : Option String) (start now : ℕ) (m : Manager)
    → ((s : String) → or_text source m.active_node_id ≡ some s → m.active_node_id ≡ some s)
    → HasOneActive m
    → HasOneActive (trigger_failover source target start now m).1
unfolding trigger_failover
trigger_failover-IsSingle source target start now m h i = elim (Bool-cases (in_progress m.state)) [
  | inl p ↦ rw (p, trigger_failover) i
  | inr p ↦ elim (Option-cases (or_text source m.active_node_id)) [
    | inl e ↦ rw (p, trigger_failover) (rw e i)
    | inr (s, e) ↦ elim (Bool-cases (contains s m.nodes)) [
      | inl c ↦
          rw (p, trigger_failover)
            (rw e (
              rw c (
                fail_over-IsSingle s target start now (set_state failover_in_progress m) (h s e)
                  i)))
      | inr c ↦ rw (p, trigger_failover) (rw e (rw c i))
    ]
  ]
]

pub trigger_recovery-IsSingle :
    (k : String) (m : Manager) → HasOneActive m → HasOneActive (trigger_recovery k m).1
unfolding trigger_recovery
trigger_recovery-IsSingle k m i =
    let i' =
      modify-IsSingle k (λ q. record q { status = recovering; missed_heartbeats = 0 }) m.nodes
        m.active_node_id (λ q t. ground arith) i in
    elim (Option-cases (lookup k m.nodes)) [
      | inl e ↦ rw (e, trigger_recovery) i
      | inr (n, e) ↦ elim (Bool-cases (is_failed n.status)) [
        | inl c ↦ rw (e, trigger_recovery) (rw c i')
        | inr c ↦ rw (e, trigger_recovery) (rw c i)
      ]
    ]
