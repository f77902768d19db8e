-- ===== src/Infrastructure/Failover/Detection.antt =====
-- When a node is found to have failed: backend/infrastructure/failover_manager.py, `heartbeat` and
-- `check_failures`.
use dutchkem_trading_ai.Infrastructure.Failover.Invariant.{check_nodes-lookup}
use dutchkem_trading_ai.Common.Dict.{lookup-modify, lookup}
use dutchkem_trading_ai.Common.{
  eq_refl, arith, if◌then◌else◌, ◌/◌, ◌<◌, ◌*◌, ◌≤◌, ◌+◌, some, ℕ, String, ◌≡◌, true, false, ◌-◌,
}
use dutchkem_trading_ai.Infrastructure.Failover.{
  skipped, hear, lookup, check_node, heartbeat, check_failures,
}
use dutchkem_trading_ai.Infrastructure.Nodes.{is_failed, Node, Manager}

-- A node that has been heard from is not marked failed by a check that comes no later than the
-- threshold's number of intervals: it is in the state in which the heartbeat left it.
pub heartbeat-check_failures :
    (threshold interval : ℕ) (k : String) (heard now : ℕ) (n : Node) (m : Manager)
    → lookup k m.nodes ≡ some n
    → now ≤ heard + threshold * interval
    → let m' = (heartbeat k heard m).1 in
      lookup k (check_failures threshold interval now m').1.nodes ≡ some (hear heard n)
unfolding heartbeat check_failures check_node
heartbeat-check_failures threshold interval k heard now n m e l =
    let m' = (heartbeat k heard m).1 in
    ground (
      arith,
      check_nodes-lookup threshold interval m'.active_node_id now k m'.nodes,
      lookup-modify k k (hear heard) m.nodes,
      eq_refl k,
    )

-- A registered node that has been silent for longer than the threshold's number of intervals is
-- marked failed by the next check, whatever it was before, unless it is marked active without being
-- the active node.
pub check_failures-detects :
    (threshold interval : ℕ) (k : String) (now : ℕ) (n : Node) (m : Manager)
    → lookup k m.nodes ≡ some n
    → n.last_heartbeat + threshold * interval < now
    → skipped m.active_node_id k n ≡ false
    → (n' : Node) × (lookup k (check_failures threshold interval now m).1.nodes ≡ some n')
      × (is_failed n'.status ≡ true)
      × (n'.missed_heartbeats ≡ (now - n.last_heartbeat) / interval)
      × (n'.failover_count
          ≡ (if is_failed n.status then n.failover_count else n.failover_count + 1))
unfolding check_failures check_node
check_failures-detects threshold interval k now n m e l s = (
  check_node threshold interval m.active_node_id now k n,
  ground (arith, check_nodes-lookup threshold interval m.active_node_id now k m.nodes),
  ground arith,
  ground arith,
  ground arith,
)
