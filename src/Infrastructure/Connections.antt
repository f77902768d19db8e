-- ===== src/Infrastructure/Connections.antt =====
-- The state of the failover between internet connections, backend/infrastructure/internet_failover.py.
use dutchkem_trading_ai.Common.Int.{ℤ}
use dutchkem_trading_ai.Common.Dict.{modify, Dict}
use dutchkem_trading_ai.Common.{ℕ, String, Option, List, Bool, true, false}

pub data IspStatus : Type 0 where
  connected : IspStatus
  disconnected : IspStatus
  degraded : IspStatus
  unknown : IspStatus

pub data ConnectionType : Type 0 where
  wired cellular wifi vpn unknown_type : ConnectionType

pub record IspConnection : Type 0 where
  pub name : String
  pub connection_type : ConnectionType
  pub priority : ℤ
  pub test_host : String
  pub test_port : ℕ
  pub status : IspStatus
  pub latency : ℕ
  pub last_check : ℕ
  pub consecutive_failures : ℕ
  pub total_failures : ℕ

pub record IspSwitch : Type 0 where
  pub source : String
  pub target : String
  pub source_name : String
  pub target_name : String
  pub duration : ℕ
  pub timestamp : ℕ

pub data IspNotice : Type 0 where
  on_isp_failover : IspSwitch → IspNotice
  on_degraded : String → IspNotice
  isp_journal : IspSwitch → IspNotice

pub record InternetFailover : Type 0 where
  pub connections : Dict IspConnection
  pub active_isp_id : Option String
  pub isp_failover_log : List IspSwitch
  pub compression_enabled : Bool
  pub isp_notices : List IspNotice

-- What the socket's connect ends with: the latency, or an error.
pub data Probe : Type 0 where
  reached : ℕ → Probe
  refused : String → Probe

pub data TestResult : Type 0 where
  isp_not_found : TestResult
  test_passed : ℕ → IspStatus → TestResult
  test_failed : String → IspStatus → TestResult

pub data IspReply : Type 0 where
  no_active_isp : IspReply
  isp_not_registered : String → IspReply
  no_healthy_isp : IspReply
  isp_target_not_found : String → IspReply
  isp_switched : String → String → ℕ → IspReply

abbrev pub is_disconnected : IspStatus → Bool
is_disconnected disconnected = true
is_disconnected _ = false

abbrev pub is_degraded : IspStatus → Bool
is_degraded degraded = true
is_degraded _ = false

abbrev pub is_success : TestResult → Bool
is_success (test_passed _ _) = true
is_success _ = false

abbrev pub result_is_degraded : TestResult → Bool
result_is_degraded isp_not_found = false
result_is_degraded (test_passed _ s) = is_degraded s
result_is_degraded (test_failed _ s) = is_degraded s

abbrev pub set_isp_status : IspStatus → IspConnection → IspConnection
set_isp_status s c = record c { status = s }

abbrev pub edit_isp : String → (IspConnection → IspConnection) → InternetFailover → InternetFailover
edit_isp k f m = record m { connections = modify k f m.connections }
