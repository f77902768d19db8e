-- ===== src/Infrastructure/Failover/Overrides.antt =====
-- A failover that names a source other than the active node, as backend/infrastructure/views.py passes
-- it to `trigger_failover` of backend/infrastructure/failover_manager.py.
use dutchkem_trading_ai.Infrastructure.Failover.Switching.{
  fail_node, fail_over-ok, switched_manager,
}
use dutchkem_trading_ai.Common.Exec.{ok}
use dutchkem_trading_ai.Common.Dict.{lookup-modify, modify, Dict, lookup, contains}
use dutchkem_trading_ai.Infrastructure.Nodes.{
  active, set_status, failover_in_progress, switched, in_progress, Node, Manager,
}
use dutchkem_trading_ai.Infrastructure.Selection.{truthy, or_text}
use dutchkem_trading_ai.Infrastructure.Failover.{
  active, set_status, failover_in_progress, set_state, announce, switched, is_active, ok,
  select_backup_node, contains, in_progress, Node, Manager, truthy, or_text, trigger_failover,
}
use dutchkem_trading_ai.Common.{
  refl, eq_refl, if◌then◌else◌, inr, inl, arith, Option-cases, none, ◌-◌, some, true, str_eq, false,
  ◌≡◌, ℕ, Option, String,
}

trigger_failover-switched :
    (s t : String) (target : Option String) (start now : ℕ) (m : Manager)
    → in_progress m.state ≡ false
    → str_eq s "" ≡ false
    → contains s m.nodes ≡ true
    → or_text target (select_backup_node s m) ≡ some t
    → contains t m.nodes ≡ true
    → trigger_failover (some s) target start now m ≡ (
      ok (switched s t (now - start)),
      announce s t (now - start) now (switched_manager s t (set_state failover_in_progress m)),
    )
unfolding trigger_failover or_text truthy select_backup_node
trigger_failover-switched s t target start now m p e c f g =
    rw (p, e, c, trigger_failover)
      (fail_over-ok s t target start now (set_state failover_in_progress m) f g)

unlisted : {V : Type 0} (k : String) (d : Dict V) → contains k d ≡ true → lookup k d ≡ none → ⊥
unlisted k d c e = ground (arith, e, c)

switched-both :
    (s t a : String) (duration now : ℕ) (n : Node) (m : Manager)
    → contains t m.nodes ≡ true
    → lookup a m.nodes ≡ some n
    → is_active n.status ≡ true
    → str_eq s a ≡ false
    → str_eq t a ≡ false
    → let m' = announce s t duration now (switched_manager s t m) in
      ((x : Node) × (lookup a m'.nodes ≡ some x) × (is_active x.status ≡ true))
      × ((y : Node) × (lookup t m'.nodes ≡ some y) × (is_active y.status ≡ true))
      × (m'.active_node_id ≡ some t)
unfolding announce
switched-both s t a duration now n m g l k u v =
    let d = modify s fail_node m.nodes in
    elim (Option-cases (lookup t m.nodes)) [
      | inl e ↦ absurd (unlisted t m.nodes g e)
      | inr (b, e) ↦
          let b' = if str_eq s t then fail_node b else b in
          (
            (
              n,
              ground (
                arith,
                lookup-modify t a (set_status active) d,
                lookup-modify s a fail_node m.nodes,
              ),
              k,
            ),
            (
              set_status active b',
              ground (
                arith,
                lookup-modify t t (set_status active) d,
                lookup-modify s t fail_node m.nodes,
                eq_refl t,
              ),
              refl,
            ),
            refl,
          )
    ]

-- With no failover in progress, a failover from a registered node other than the active one, to a
-- registered node that is asked for or else selected, and is not the active one either: both that node
-- and the one that was active are marked active after it, and the manager holds only the new one.
pub trigger_failover-two_active :
    (s t a : String) (target : Option String) (start now : ℕ) (n : Node) (m : Manager)
    → in_progress m.state ≡ false
    → str_eq s "" ≡ false
    → contains s m.nodes ≡ true
    → or_text target (select_backup_node s m) ≡ some t
    → contains t m.nodes ≡ true
    → m.active_node_id ≡ some a
    → lookup a m.nodes ≡ some n
    → is_active n.status ≡ true
    → str_eq s a ≡ false
    → str_eq t a ≡ false
    → let m' = (trigger_failover (some s) target start now m).1 in
      ((x : Node) × (lookup a m'.nodes ≡ some x) × (is_active x.status ≡ true))
      × ((y : Node) × (lookup t m'.nodes ≡ some y) × (is_active y.status ≡ true))
      × (m'.active_node_id ≡ some t)
trigger_failover-two_active s t a target start now n m p e c f g h l k u v =
    rw (trigger_failover-switched s t target start now m p e c f g)
      (switched-both s t a (now - start) now n (set_state failover_in_progress m) g l k u v)
