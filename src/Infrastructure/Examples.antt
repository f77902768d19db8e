-- ===== src/Infrastructure/Examples.antt =====
-- Tests of the failover manager of backend/infrastructure/failover_manager.py, and its theorems at
-- concrete inputs.
use dutchkem_trading_ai.Infrastructure.Failover.Overrides.{trigger_failover-two_active}
use dutchkem_trading_ai.Infrastructure.Internet.Monitoring.{test_connectivity-failures, fail_times}
use dutchkem_trading_ai.Infrastructure.Failover.Switching.{trigger_failover-settles}
use dutchkem_trading_ai.Infrastructure.Failover.Detection.{check_failures-detects}
use dutchkem_trading_ai.Payments.Korapay.{failed}
use dutchkem_trading_ai.Common.Exec.{◌>>=◌, ok}
use dutchkem_trading_ai.Infrastructure.Failover.Runs.{
  activated, registered, started, then_step, Run-one_active,
}
use dutchkem_trading_ai.Infrastructure.Selection.{or_text, truthy, select_from, select}
use dutchkem_trading_ai.Common.Int.{negsuc, ℤ, pos}
use dutchkem_trading_ai.Common.Dict.{modify, insert, Dict, lookup}
use dutchkem_trading_ai.Common.{
  str_eq, if◌then◌else◌, arith, ◌/◌, ◌-◌, ℕ, String, List, [], ◌∷◌, true, false, ◌≡◌, none, some,
  refl,
}
use dutchkem_trading_ai.Infrastructure.Internet.{
  select_backup_isp, switch_isp, trigger_isp_failover,
}
use dutchkem_trading_ai.Infrastructure.Connections.{
  isp_switched, wired, connected, disconnected, reached, refused, InternetFailover, IspConnection,
  IspStatus, Probe,
}
use dutchkem_trading_ai.Infrastructure.Failover.{
  fail_over, set_active_node, trigger_failover, fails_now, check_node, check_nodes, check_failures,
  register_node, monitor_failures, select_backup_node, monitor_turn,
}
use dutchkem_trading_ai.Infrastructure.Nodes.{
  is_active, set_status, in_progress, failed, FailoverReply, is_failed, initial_manager, normal,
  NodeStatus, Manager, Node, standby, active,
}

abbrev sample : NodeStatus → ℤ → Node
sample s p = record {
  host = "host";
  port = 80;
  priority = p;
  status = s;
  last_heartbeat = 1000;
  missed_heartbeats = 0;
  failover_count = 0;
  metadata = [];
}

abbrev cluster : Manager
cluster = record {
  nodes =
      ("a", sample active (pos 3))
      ∷ ("b", sample standby (pos 1))
      ∷ ("c", sample standby (pos 2))
      ∷ [];
  active_node_id = some "a";
  state = normal;
  failover_log = [];
  notices = [];
}

-- the backup of the highest priority
picks_c : select_backup_node "a" cluster ≡ some "c"
unfolding select_backup_node select select_from
picks_c = refl

-- a backup of a negative priority is never selected
negative_priority_unused :
    select_backup_node "a" (record cluster {
      nodes = ("a", sample active (pos 3)) ∷ ("b", sample standby (negsuc 4)) ∷ [];
    })
    ≡ none
unfolding select_backup_node select select_from
negative_priority_unused = refl

abbrev statuses : Dict Node → List NodeStatus
statuses [] = []
statuses ((k, n) ∷ d) = n.status ∷ statuses d

-- A monitor's turn 39 seconds after the last heartbeats: every node has failed, and none is left to
-- take over.
turn_fails_all : statuses (monitor_turn 3 10000 40000 cluster).nodes ≡ failed ∷ failed ∷ failed ∷ []
unfolding monitor_turn monitor_failures check_failures check_nodes check_node fails_now
    trigger_failover or_text lookup fail_over ◌>>=◌ select_backup_node select
turn_fails_all = refl

abbrev registered_a : Manager
registered_a = register_node "a" "h" 80 (pos 0) none 5 initial_manager

Run-one_active_example : (set_active_node "a" registered_a).active_node_id ≡ some "a"
unfolding register_node set_active_node truthy lookup insert modify
Run-one_active_example =
    Run-one_active {threshold = 3} {interval = 10}
      (then_step (then_step started (registered "a" "h" 80 (pos 0) none 5 initial_manager))
        (activated "a" registered_a refl))
      "a"
      (set_status active (record {
        host = "h";
        port = 80;
        priority = pos 0;
        status = standby;
        last_heartbeat = 5;
        missed_heartbeats = 0;
        failover_count = 0;
        metadata = [];
      }))
      refl refl

trigger_failover-settles_example :
    (r : FailoverReply) × ((trigger_failover none none 100 140 cluster).0 ≡ ok r)
    × (in_progress (trigger_failover none none 100 140 cluster).1.state ≡ false)
trigger_failover-settles_example = trigger_failover-settles none 100 140 cluster refl

check_failures-detects_example :
    (n' : Node) × (lookup "b" (check_failures 3 10000 40000 cluster).1.nodes ≡ some n')
    × (is_failed n'.status ≡ true)
    × (n'.missed_heartbeats ≡ (40000 - 1000) / 10000)
    × (n'.failover_count ≡ 1)
unfolding lookup
check_failures-detects_example =
    check_failures-detects 3 10000 "b" 40000 (sample standby (pos 1)) cluster refl (omega arith)
      refl

abbrev isp : IspStatus → ℕ → IspConnection
isp s p = record {
  name = "isp";
  connection_type = wired;
  priority = pos p;
  test_host = "8.8.8.8";
  test_port = 53;
  status = s;
  latency = 0;
  last_check = 0;
  consecutive_failures = 1;
  total_failures = 1;
}

abbrev office : InternetFailover
office = record {
  connections = ("wire", isp connected 2) ∷ ("cell", isp connected 1) ∷ [];
  active_isp_id = some "wire";
  isp_failover_log = [];
  compression_enabled = false;
  isp_notices = [];
}

-- the active wire is down, and the cell can be reached
abbrev wire_down : String → Probe
wire_down k = if str_eq k "cell" then reached 20000 else refused "timed out"

-- An operator's failover takes the cell.
office_switches : (trigger_isp_failover none none 0 5 office).0 ≡ isp_switched "wire" "cell" 5
unfolding trigger_isp_failover switch_isp or_text truthy select_backup_isp select select_from lookup
office_switches = refl

test_connectivity-failures_example :
    let m' = fail_times 3 500000 wire_down 100 "wire" 2 office in
    (c' : IspConnection) × (lookup "wire" m'.connections ≡ some c')
    × (c'.consecutive_failures ≡ 3)
    × (c'.total_failures ≡ 3)
    × (c'.status ≡ disconnected)
unfolding lookup
test_connectivity-failures_example =
    test_connectivity-failures 3 500000 wire_down 100 "wire" "timed out" 1 (isp connected 2) office
      refl refl

trigger_failover-two_active_example :
    let m' = (trigger_failover (some "b") (some "c") 5 6 cluster).1 in
    ((x : Node) × (lookup "a" m'.nodes ≡ some x) × (is_active x.status ≡ true))
    × ((y : Node) × (lookup "c" m'.nodes ≡ some y) × (is_active y.status ≡ true))
    × (m'.active_node_id ≡ some "c")
unfolding lookup or_text
trigger_failover-two_active_example =
    trigger_failover-two_active "b" "c" "a" (some "c") 5 6 (sample active (pos 3)) cluster refl refl
      refl refl refl refl refl refl refl refl
