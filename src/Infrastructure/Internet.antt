-- ===== src/Infrastructure/Internet.antt =====
-- The failover between internet connections: backend/infrastructure/internet_failover.py. Times and
-- latencies are whole microseconds; what a connection attempt ends with is a parameter. Callbacks and
-- the journal row are a trace, as for the nodes.
pub mod Monitoring
use dutchkem_trading_ai.Infrastructure.Nodes.{holds_id}
use dutchkem_trading_ai.Infrastructure.Selection.{truthy, select, or_text}
use dutchkem_trading_ai.Common.Int.{ℤ}
use dutchkem_trading_ai.Common.Dict.{insert, contains, modify, lookup, Dict}
use dutchkem_trading_ai.Common.{
  leb, ◌+◌, ◌++◌, ◌||◌, str_eq, push_bounded, ltb, is_some, ◌-◌, not, if◌then◌else◌, ℕ, String,
  Option, none, some, List, [], ◌∷◌, Bool, true, false, ◌&&◌,
}
use dutchkem_trading_ai.Infrastructure.Connections.{
  ConnectionType, InternetFailover, IspConnection, IspNotice, IspReply, IspStatus, IspSwitch, Probe,
  TestResult, cellular, connected, degraded, disconnected, edit_isp, is_degraded, is_disconnected,
  is_success, isp_journal, isp_not_found, isp_not_registered, isp_switched, isp_target_not_found,
  no_active_isp, no_healthy_isp, on_degraded, on_isp_failover, reached, refused, result_is_degraded,
  set_isp_status, test_failed, test_passed, unknown, unknown_type, vpn, wifi, wired,
}

unfoldable pub register_isp :
    String → String → ConnectionType → ℤ → String → ℕ → ℕ → InternetFailover → InternetFailover
register_isp k n t p host port now m = record m {
  connections =
      insert k
        (record {
          name = n;
          connection_type = t;
          priority = p;
          test_host = host;
          test_port = port;
          status = unknown;
          latency = 0;
          last_check = now;
          consecutive_failures = 0;
          total_failures = 0;
        })
        m.connections;
}

unfoldable pub set_active_isp : String → InternetFailover → Bool × InternetFailover
set_active_isp k m =
    if contains k m.connections
    then (true, record (edit_isp k (set_isp_status connected) m) { active_isp_id = some k })
    else (false, m)

-- `enable_compression`, `disable_compression`
abbrev pub set_compression : Bool → InternetFailover → InternetFailover
set_compression b m = record m { compression_enabled = b }

unfoldable pub any_success : Dict TestResult → Bool
any_success [] = false
any_success ((k, r) ∷ rs) = is_success r || any_success rs

abbrev pub keys : {V : Type 0} → Dict V → List String
keys [] = []
keys ((k, v) ∷ d) = k ∷ keys d

module _ (failure_threshold latency_threshold : ℕ) where
  -- a connection after a test, by what its attempt ended with
  unfoldable pub after_probe : Probe → ℕ → IspConnection → IspConnection
  after_probe (reached l) now c = record c {
    latency = l;
    last_check = now;
    consecutive_failures = 0;
    status = if ltb latency_threshold l then degraded else connected;
  }
  after_probe (refused e) now c = record c {
    consecutive_failures = c.consecutive_failures + 1;
    total_failures = c.total_failures + 1;
    last_check = now;
    status = if leb failure_threshold (c.consecutive_failures + 1) then disconnected else degraded;
  }

  abbrev pub test_result : Probe → IspConnection → TestResult
  test_result (reached l) c = test_passed l c.status
  test_result (refused e) c = test_failed e c.status

  unfoldable pub test_connectivity :
      (String → Probe) → ℕ → String → InternetFailover → TestResult × InternetFailover
  test_connectivity probe now k m = elim (lookup k m.connections) [
    | none ↦ (isp_not_found, m)
    | some c ↦ (
      test_result (probe k) (after_probe (probe k) now c),
      edit_isp k (after_probe (probe k) now) m,
    )
  ]

  unfoldable pub test_each :
      (String → Probe) → ℕ → List String → InternetFailover → Dict TestResult × InternetFailover
  test_each probe now [] m = ([], m)
  test_each probe now (k ∷ ks) m =
      let (r, m') = test_connectivity probe now k m in
      let (rs, m'') = test_each probe now ks m' in ((k, r) ∷ rs, m'')

  unfoldable pub test_all_connections :
      (String → Probe) → ℕ → InternetFailover → Dict TestResult × InternetFailover
  test_all_connections probe now m = test_each probe now (keys m.connections) m

  unfoldable pub is_compression_active : InternetFailover → Bool
  is_compression_active m = elim (truthy m.active_isp_id) [
    | none ↦ m.compression_enabled
    | some k ↦ elim (lookup k m.connections) [
      | none ↦ m.compression_enabled
      | some c ↦ is_degraded c.status || ltb latency_threshold c.latency || m.compression_enabled
    ]
  ]

abbrev pub can_carry : String → String → IspConnection → Bool
can_carry source k c = not (str_eq k source) && not (is_disconnected c.status)

-- `_select_backup_isp`
unfoldable pub select_backup_isp : String → InternetFailover → Option String
select_backup_isp source m = select (can_carry source) (λ c. c.priority) m.connections

abbrev pub isp_name : String → InternetFailover → String
isp_name k m = elim (lookup k m.connections) [ none ↦ "" | some c ↦ c.name ]

-- The switch itself and what is recorded and sent after it; both names are registered.
unfoldable pub switch_isp : String → String → ℕ → ℕ → InternetFailover → IspReply × InternetFailover
switch_isp source target start now m =
    let event : IspSwitch = record {
      source = source;
      target = target;
      source_name = isp_name source m;
      target_name = isp_name target m;
      duration = now - start;
      timestamp = now;
    } in
    let m' =
      edit_isp target (set_isp_status connected)
        (edit_isp source (set_isp_status disconnected) m) in
    (
      isp_switched source target (now - start),
      record m' {
        active_isp_id = some target;
        isp_failover_log = push_bounded 500 m.isp_failover_log event;
        isp_notices = m.isp_notices ++ isp_journal event ∷ on_isp_failover event ∷ [];
      },
    )

unfoldable pub trigger_isp_failover :
    Option String → Option String → ℕ → ℕ → InternetFailover → IspReply × InternetFailover
trigger_isp_failover source_isp_id target_isp_id start now m =
    elim (or_text source_isp_id m.active_isp_id) [
      | none ↦ (no_active_isp, m)
      | some source ↦
          if contains source m.connections
          then elim (or_text target_isp_id (select_backup_isp source m)) [
            | none ↦ (no_healthy_isp, m)
            | some target ↦
                if contains target m.connections
                then switch_isp source target start now m
                else (isp_target_not_found target, m)
          ]
          else (isp_not_registered source, m)
    ]

-- `on_degraded` for each result that is the active connection's and degraded
unfoldable pub report_degraded : Dict TestResult → InternetFailover → InternetFailover
report_degraded [] m = m
report_degraded ((k, r) ∷ rs) m = report_degraded rs (
    if result_is_degraded r && holds_id m.active_isp_id k
    then record m { isp_notices = m.isp_notices ++ on_degraded k ∷ [] }
    else m)

-- One turn of `_monitor_loop`.
unfoldable pub isp_monitor_turn : ℕ → ℕ → (String → Probe) → ℕ → InternetFailover → InternetFailover
isp_monitor_turn threshold latency probe now m =
    let (results, m') = test_all_connections threshold latency probe now m in
    report_degraded results (
      if not (any_success results) && is_some (truthy m'.active_isp_id)
      then (trigger_isp_failover none none now now m').1
      else m')
