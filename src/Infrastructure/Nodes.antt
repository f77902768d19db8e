-- ===== src/Infrastructure/Nodes.antt =====
-- The state of the failover manager of backend/infrastructure/failover_manager.py. Times are whole
-- milliseconds; the callbacks and the journal row in the database are a trace of what was sent.

use dutchkem_trading_ai.Common.Int.{ℤ}
use dutchkem_trading_ai.Common.Dict.{modify, Dict}
use dutchkem_trading_ai.Common.{
  ◌++◌, str_eq, ℕ, String, Option, none, some, List, [], ◌∷◌, Bool, true, false,
}

pub data NodeStatus : Type 0 where
  standby : NodeStatus
  active : NodeStatus
  failed : NodeStatus
  recovering : NodeStatus

pub data FailoverState : Type 0 where
  normal : FailoverState
  failover_pending : FailoverState
  failover_in_progress : FailoverState
  recovery : FailoverState

pub record Node : Type 0 where
  pub host : String
  pub port : ℕ
  pub priority : ℤ
  pub status : NodeStatus
  pub last_heartbeat : ℕ
  pub missed_heartbeats : ℕ
  pub failover_count : ℕ
  pub metadata : Dict String

pub record SwitchRecord : Type 0 where
  pub source : String
  pub target : String
  pub duration : ℕ
  pub timestamp : ℕ

pub data Notice : Type 0 where
  on_failover : SwitchRecord → Notice
  on_node_failure : String → Notice
  on_node_recovery : String → Notice
  journal : String → String → String → ℕ → Bool → Notice

pub record Manager : Type 0 where
  pub nodes : Dict Node
  pub active_node_id : Option String
  pub state : FailoverState
  pub failover_log : List SwitchRecord
  pub notices : List Notice

pub data FailoverError : Type 0 where
  key_error : String → FailoverError

pub data FailoverReply : Type 0 where
  already_in_progress : FailoverReply
  no_active_node : FailoverReply
  source_not_found : String → FailoverReply
  no_healthy_backup : FailoverReply
  switched : String → String → ℕ → FailoverReply

pub data RecoveryReply : Type 0 where
  node_not_found : String → RecoveryReply
  node_not_failed : String → NodeStatus → RecoveryReply
  recovery_started : String → RecoveryReply

pub data NodeFailure : Type 0 where
  node_failure : String → String → ℕ → ℕ → ℕ → NodeFailure

abbrev pub is_failed : NodeStatus → Bool
is_failed failed = true
is_failed _ = false

abbrev pub is_active : NodeStatus → Bool
is_active active = true
is_active _ = false

abbrev pub in_progress : FailoverState → Bool
in_progress failover_in_progress = true
in_progress _ = false

abbrev pub log_length : ℕ
log_length = 500

-- `self.active_node_id == node_id`
abbrev pub holds_id : Option String → String → Bool
holds_id none k = false
holds_id (some j) k = str_eq j k

abbrev pub set_status : NodeStatus → Node → Node
set_status st n = record n { status = st }

-- `_fire_event`, `_log_failover_event`
abbrev pub notify : Notice → Manager → Manager
notify e m = record m { notices = m.notices ++ e ∷ [] }

abbrev pub edit_node : String → (Node → Node) → Manager → Manager
edit_node k f m = record m { nodes = modify k f m.nodes }

abbrev pub initial_manager : Manager
initial_manager = record {
  nodes = [];
  active_node_id = none;
  state = normal;
  failover_log = [];
  notices = [];
}
