-- ===== src/Infrastructure/Failover/Runs.antt =====
-- The runs of the failover manager of backend/infrastructure/failover_manager.py: its operations in
-- any order, with the monitor's turns between them.
use dutchkem_trading_ai.Common.Exec.{Result-cases}
use dutchkem_trading_ai.Infrastructure.Selection.{truthy, or_text}
use dutchkem_trading_ai.Common.Dict.{Dict, lookup}
use dutchkem_trading_ai.Infrastructure.Failover.Invariant.{
  check_failures-IsSingle, trigger_recovery-IsSingle, trigger_failover-IsSingle, heartbeat-IsSingle,
  set_active_node-IsSingle, register_node-IsSingle, HasOneActive,
}
use dutchkem_trading_ai.Common.Int.{ℤ}
use dutchkem_trading_ai.Common.{
  inr, eq_iff, none, inl, str_eq, Bool-cases, some, arith, Option, ℕ, String, ◌≡◌, true, false,
  List, [], ◌∷◌,
}
use dutchkem_trading_ai.Infrastructure.Failover.{
  trigger_recovery, check_failures, trigger_failover, heartbeat, set_active_node, register_node,
  monitor_turn, monitor_failures,
}
use dutchkem_trading_ai.Infrastructure.Nodes.{
  holds_id, node_failure, NodeFailure, initial_manager, Node, Manager, is_active,
}

-- One operation. Names are not empty. The failovers are those away from the active node, whether the
-- caller names it or no source, to any target or to none. A source that is another node is
-- taken by the code as well, and is left to Overrides.
pub data Step (threshold interval : ℕ) : Manager → Manager → Type 0 where
  registered :
      (k h : String) (p : ℕ) (prio : ℤ) (meta : Option (Dict String)) (now : ℕ) (m : Manager)
      → Step threshold interval m (register_node k h p prio meta now m)
  activated :
      (k : String) (m : Manager)
      → str_eq k "" ≡ false
      → Step threshold interval m (set_active_node k m)
  heard : (k : String) (now : ℕ) (m : Manager) → Step threshold interval m (heartbeat k now m).1
  failed_over :
      (source target : Option String) (start now : ℕ) (m : Manager)
      → ((s : String) → or_text source m.active_node_id ≡ some s → m.active_node_id ≡ some s)
      → Step threshold interval m (trigger_failover source target start now m).1
  recovering_started :
      (k : String) (m : Manager) → Step threshold interval m (trigger_recovery k m).1
  monitored :
      (now : ℕ) (m : Manager) → Step threshold interval m (monitor_turn threshold interval now m)

pub data Run (threshold interval : ℕ) : Manager → Type 0 where
  started : Run threshold interval initial_manager
  then_step :
      {m m' : Manager}
      → Run threshold interval m
      → Step threshold interval m m'
      → Run threshold interval m'

none_here : (k : String) (n : Node) → lookup k [] ≡ some n → none ≡ some k
unfolding lookup
none_here k n e = ground arith

initial-IsSingle : HasOneActive initial_manager
initial-IsSingle = record { marked = λ k n e a. none_here k n e; named = λ k e. ground arith }

or_text-none : (o : Option String) (s : String) → or_text none o ≡ some s → o ≡ some s
unfolding or_text truthy
or_text-none none s h = ground arith
or_text-none (some k) s h = ground arith

-- the source that the monitor names is the active node
source_holds :
    (k : String) (a : Option String) (s : String)
    → holds_id a k ≡ true
    → or_text (some k) a ≡ some s
    → a ≡ some s
unfolding or_text truthy
source_holds k none s e h = ground arith
source_holds k (some j) s e h = ground (arith, eq_iff j k)

monitor_failures-IsSingle :
    (now : ℕ) (fs : List NodeFailure) (m : Manager)
    → HasOneActive m
    → HasOneActive (monitor_failures now fs m)
unfolding monitor_failures
monitor_failures-IsSingle now [] m i = i
monitor_failures-IsSingle now (node_failure k a b c d ∷ fs) m i =
    elim (Bool-cases (holds_id m.active_node_id k)) [
      | inl e ↦
          let m' = (trigger_failover (some k) none now now m).1 in
          let i' =
            trigger_failover-IsSingle (some k) none now now m
              (λ s h. source_holds k m.active_node_id s e h) i in
          elim (Result-cases (trigger_failover (some k) none now now m).0) [
            | inl (x, c) ↦ rw (e, monitor_failures) (rw c (monitor_failures-IsSingle now fs m' i'))
            | inr (x, c) ↦ rw (e, monitor_failures) (rw c i')
          ]
      | inr e ↦ rw e (monitor_failures-IsSingle now fs m i)
    ]

Step-IsSingle :
    {threshold interval : ℕ} {m m' : Manager}
    → Step threshold interval m m'
    → HasOneActive m
    → HasOneActive m'
unfolding monitor_turn
Step-IsSingle (registered k h p prio meta now m) i = register_node-IsSingle k h p prio meta now m i
Step-IsSingle (activated k m s) i = set_active_node-IsSingle k m s i
Step-IsSingle (heard k now m) i = heartbeat-IsSingle k now m i
Step-IsSingle (failed_over source target start now m h) i =
    trigger_failover-IsSingle source target start now m h i
Step-IsSingle (recovering_started k m) i = trigger_recovery-IsSingle k m i
Step-IsSingle {threshold} {interval} (monitored now m) i =
    let (fs, m') = check_failures threshold interval now m in
    monitor_failures-IsSingle now fs m' (check_failures-IsSingle threshold interval now m i)

Run-IsSingle : {threshold interval : ℕ} {m : Manager} → Run threshold interval m → HasOneActive m
Run-IsSingle started = initial-IsSingle
Run-IsSingle (then_step r s) = Step-IsSingle s (Run-IsSingle r)

-- In every run in which each failover is away from the active node, by its name or without a source,
-- whatever the order of the operations and the times, a node that is marked active is the one that
-- the manager holds as active: there are never two.
pub Run-one_active :
    {threshold interval : ℕ} {m : Manager}
    → Run threshold interval m
    → (k : String) (n : Node) → lookup k m.nodes ≡ some n
    → is_active n.status ≡ true
    → m.active_node_id ≡ some k
Run-one_active r = (Run-IsSingle r).marked
