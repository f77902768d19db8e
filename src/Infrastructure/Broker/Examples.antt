-- ===== src/Infrastructure/Broker/Examples.antt =====
-- The failover between brokers, backend/infrastructure/broker_failover.py, at concrete inputs.
use dutchkem_trading_ai.Infrastructure.Selection.{select_from, select, truthy, or_text}
use dutchkem_trading_ai.Common.Int.{pos}
use dutchkem_trading_ai.Common.Dict.{lookup}
use dutchkem_trading_ai.Common.{ℕ, String, none, some, [], ◌∷◌, false, ◌≡◌, refl}
use dutchkem_trading_ai.Infrastructure.Broker.{
  select, select_backup_broker, truthy, switch_broker, or_text, trigger_broker_failover, lookup,
  BrokerStatus, BrokerFailover, BrokerConnection, broker_connected, broker_disconnected,
  broker_switched, set_active_broker,
}

abbrev house : String → BrokerStatus → ℕ → BrokerConnection
house n s p = record {
  name = n;
  host = "host";
  port = 443;
  priority = pos p;
  status = s;
  last_connected = none;
  last_heartbeat = 0;
  reconnect_count = 0;
  error_count = 0;
  latency = 0;
}

abbrev houses : BrokerFailover
houses = record {
  brokers =
      ("ic", house "IC Markets" broker_connected 2)
      ∷ ("pp", house "Pepperstone" broker_disconnected 1)
      ∷ [];
  active_broker_id = some "ic";
  broker_failover_log = [];
  broker_notices = [];
}

-- a broker that is not connected is not made the active one
refuses_disconnected : (set_active_broker "pp" houses).0 ≡ false
unfolding set_active_broker lookup
refuses_disconnected = refl

-- yet a failover takes it
takes_disconnected : (trigger_broker_failover none none 0 5 houses).0 ≡ broker_switched "ic" "pp" 5
unfolding trigger_broker_failover or_text truthy lookup select_backup_broker select select_from
    switch_broker
takes_disconnected = refl
