-- ===== src/Infrastructure/Broker/Resync.antt =====
-- What holds after a failover between brokers: backend/infrastructure/broker_failover.py.
use dutchkem_trading_ai.Infrastructure.Selection.{or_text}
use dutchkem_trading_ai.Common.Dict.{lookup-modify, modify, lookup}
use dutchkem_trading_ai.Common.{
  Bool, eq_iff, refl, eq_refl, arith, str_eq, ℕ, String, some, true, false, ◌≡◌,
}
use dutchkem_trading_ai.Infrastructure.Broker.{
  broker_connected, BrokerSwitchReply, take_over, hear_broker, broker_disconnected,
  set_broker_status, or_text, is_connected, lookup, switch_broker, broker_heartbeat, BrokerFailover,
  BrokerConnection, broker_switched,
}

abbrev pub is_switched : BrokerSwitchReply → Bool
is_switched (broker_switched _ _ _) = true
is_switched _ = false

-- What a switch from one broker to another leaves of the brokers.
pub record Switched (s t : String) (now : ℕ) (m m' : BrokerFailover) : Type 0 where
  pub now_active : m'.active_broker_id ≡ some t
  pub target :
      (c : BrokerConnection) × (lookup t m'.brokers ≡ some c)
      × (c.status ≡ broker_connected)
      × (c.last_connected ≡ some now)
  pub source :
      str_eq s t ≡ false
      → (c : BrokerConnection) × (lookup s m'.brokers ≡ some c) × (c.status ≡ broker_disconnected)
  pub others :
      (k : String)
      → str_eq s k ≡ false
      → str_eq t k ≡ false
      → lookup k m'.brokers ≡ lookup k m.brokers

-- A broker that a failover has switched off is taken for connected again by its next heartbeat, while
-- the other stays the active one.
pub broker_heartbeat-reconnects :
    (s t : String) (start now later l : ℕ) (c : BrokerConnection) (m : BrokerFailover)
    → lookup s m.brokers ≡ some c
    → str_eq s t ≡ false
    → let m' = (broker_heartbeat s later l (switch_broker s t start now m).1).1 in
      (c' : BrokerConnection) × (lookup s m'.brokers ≡ some c')
      × (is_connected c'.status ≡ true)
      × (m'.active_broker_id ≡ some t)
unfolding broker_heartbeat switch_broker
broker_heartbeat-reconnects s t start now later l c m f n =
    let d = modify s (set_broker_status broker_disconnected) m.brokers in
    let off = set_broker_status broker_disconnected c in
    let d' = modify t (take_over now) d in
    (
      hear_broker later l off,
      ground (
        arith,
        lookup-modify s s (set_broker_status broker_disconnected) m.brokers,
        lookup-modify t s (take_over now) d,
        lookup-modify s s (hear_broker later l) d',
        eq_refl s,
        eq_iff s t,
        eq_iff t s,
      ),
      refl,
      ground arith,
    )
