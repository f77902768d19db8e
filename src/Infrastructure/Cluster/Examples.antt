-- ===== src/Infrastructure/Cluster/Examples.antt =====
-- Tests of the cluster of backend/infrastructure/multi_node.py, and its theorems at concrete inputs.
use dutchkem_trading_ai.Common.Dict.{lookup}
use dutchkem_trading_ai.Common.{ℕ, String, some, false, [], ◌∷◌, ◌≡◌, refl}
use dutchkem_trading_ai.Infrastructure.Cluster.{
  lookup, leader_is_dead, Member, MemberStatus, member_active, member_standby, Orchestrator,
  returned, waits, elect_leader, check_failovers, register_node, heartbeat,
}
use dutchkem_trading_ai.Infrastructure.Cluster.Election.{Elected, elect_leader-Elected}
use dutchkem_trading_ai.Infrastructure.Cluster.Deadlock.{check_failovers-waits}

abbrev member : MemberStatus → ℕ → ℕ → Member
member s heard load = record {
  host = "host";
  port = 8000;
  status = s;
  last_heartbeat = heard;
  failover_count = 0;
  load_score = load;
}

abbrev three : Orchestrator
three = record {
  nodes =
      ("a", member member_active 100 1)
      ∷ ("b", member member_standby 120 7)
      ∷ ("c", member member_standby 120 5)
      ∷ [];
  leader_id = some "a";
  locked = false;
}

least_loaded_wins : (elect_leader 125 three).0 ≡ returned (some "c")
unfolding elect_leader
least_loaded_wins = refl

elect_leader-Elected_example :
    Elected 125 three (elect_leader 125 three).0 (elect_leader 125 three).1
elect_leader-Elected_example = elect_leader-Elected 125 three refl

check_failovers-waits_example :
    let after = (check_failovers 140 three).1 in
    ((check_failovers 140 three).0 ≡ waits)
    × ((k h : String) (p t : ℕ) → (register_node k h p t after).0 ≡ waits)
    × ((k : String) (t : ℕ) → (heartbeat k t after).0 ≡ waits)
    × ((t : ℕ) → (elect_leader t after).0 ≡ waits)
    × ((t : ℕ) → (check_failovers t after).0 ≡ waits)
unfolding leader_is_dead lookup
check_failovers-waits_example = check_failovers-waits 140 three refl refl
