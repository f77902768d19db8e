-- ===== src/Infrastructure/Broker.antt =====
-- The failover between brokers: backend/infrastructure/broker_failover.py. Times are whole
-- milliseconds and latencies whole microseconds; callbacks and the journal row are a trace.
pub mod Resync
mod Examples
use dutchkem_trading_ai.Infrastructure.Nodes.{holds_id}
use dutchkem_trading_ai.Infrastructure.Selection.{truthy, select, or_text}
use dutchkem_trading_ai.Common.Int.{ℤ}
use dutchkem_trading_ai.Common.Dict.{insert, contains, modify, lookup, Dict}
use dutchkem_trading_ai.Common.{
  length, ◌||◌, ◌++◌, str_eq, push_bounded, ◌-◌, ◌+◌, not, ltb, if◌then◌else◌, ℕ, String, Option,
  none, some, List, [], ◌∷◌, Bool, true, false, ◌&&◌,
}

pub data BrokerStatus : Type 0 where
  broker_connected : BrokerStatus
  broker_disconnected : BrokerStatus
  reconnecting : BrokerStatus
  broker_failed : BrokerStatus

pub record BrokerConnection : Type 0 where
  pub name : String
  pub host : String
  pub port : ℕ
  pub priority : ℤ
  pub status : BrokerStatus
  pub last_connected : Option ℕ
  pub last_heartbeat : ℕ
  pub reconnect_count : ℕ
  pub error_count : ℕ
  pub latency : ℕ

pub record BrokerSwitch : Type 0 where
  pub source : String
  pub target : String
  pub source_name : String
  pub target_name : String
  pub duration : ℕ
  pub timestamp : ℕ

pub data BrokerNotice : Type 0 where
  on_broker_failover : BrokerSwitch → BrokerNotice
  on_reconnect : String → BrokerNotice
  broker_journal : BrokerSwitch → BrokerNotice

pub record BrokerFailover : Type 0 where
  pub brokers : Dict BrokerConnection
  pub active_broker_id : Option String
  pub broker_failover_log : List BrokerSwitch
  pub broker_notices : List BrokerNotice

pub data BrokerSwitchReply : Type 0 where
  no_active_broker : BrokerSwitchReply
  broker_not_found : String → BrokerSwitchReply
  no_healthy_broker : BrokerSwitchReply
  broker_target_not_found : String → BrokerSwitchReply
  broker_switched : String → String → ℕ → BrokerSwitchReply

pub data ResyncReply : Type 0 where
  resync_no_active : ResyncReply
  resync_not_connected : ResyncReply
  resynced : String → ℕ → ℕ → ℕ → ResyncReply

abbrev pub is_connected : BrokerStatus → Bool
is_connected broker_connected = true
is_connected _ = false

abbrev pub is_disconnected_broker : BrokerStatus → Bool
is_disconnected_broker broker_disconnected = true
is_disconnected_broker _ = false

abbrev pub is_failed_broker : BrokerStatus → Bool
is_failed_broker broker_failed = true
is_failed_broker _ = false

abbrev pub set_broker_status : BrokerStatus → BrokerConnection → BrokerConnection
set_broker_status s c = record c { status = s }

abbrev pub edit_broker :
    String → (BrokerConnection → BrokerConnection) → BrokerFailover → BrokerFailover
edit_broker k f m = record m { brokers = modify k f m.brokers }

unfoldable pub register_broker :
    String → String → String → ℕ → ℤ → ℕ → BrokerFailover → BrokerFailover
register_broker k n h p prio now m = record m {
  brokers =
      insert k
        (record {
          name = n;
          host = h;
          port = p;
          priority = prio;
          status = broker_disconnected;
          last_connected = none;
          last_heartbeat = now;
          reconnect_count = 0;
          error_count = 0;
          latency = 0;
        })
        m.brokers;
}

abbrev pub connect : ℕ → BrokerConnection → BrokerConnection
connect now c = record c {
  status = broker_connected;
  last_connected = some now;
  last_heartbeat = now;
  reconnect_count = c.reconnect_count + 1;
}

-- Nothing between the two locked sections can raise.
unfoldable pub connect_broker : String → ℕ → BrokerFailover → Bool × BrokerFailover
connect_broker k now m =
    if contains k m.brokers
    then (true, edit_broker k (connect now) (edit_broker k (set_broker_status reconnecting) m))
    else (false, m)

unfoldable pub disconnect_broker : String → BrokerFailover → Bool × BrokerFailover
disconnect_broker k m =
    if contains k m.brokers
    then (true, edit_broker k (set_broker_status broker_disconnected) m)
    else (false, m)

-- the broker that was active is marked disconnected, if its name is not empty
abbrev pub release : Option String → BrokerFailover → BrokerFailover
release o m = elim o [ none ↦ m | some a ↦ edit_broker a (set_broker_status broker_disconnected) m ]

unfoldable pub set_active_broker : String → BrokerFailover → Bool × BrokerFailover
set_active_broker k m = elim (lookup k m.brokers) [
  | none ↦ (false, m)
  | some c ↦
      if is_connected c.status
      then (
        true,
        record (edit_broker k (set_broker_status broker_connected)
            (release (truthy m.active_broker_id) m)) { active_broker_id = some k },
      )
      else (false, m)
]

abbrev pub hear_broker : ℕ → ℕ → BrokerConnection → BrokerConnection
hear_broker now l c = record c {
  last_heartbeat = now;
  latency = l;
  status = if is_disconnected_broker c.status then broker_connected else c.status;
}

unfoldable pub broker_heartbeat : String → ℕ → ℕ → BrokerFailover → Bool × BrokerFailover
broker_heartbeat k now l m = elim (lookup k m.brokers) [
  | none ↦ (false, m)
  | some c ↦
      let m' = edit_broker k (hear_broker now l) m in
      (
        true,
        if is_disconnected_broker c.status
            then record m' { broker_notices = m'.broker_notices ++ on_reconnect k ∷ [] }
            else m',
      )
]

-- `elapsed < 30.0 and broker.status == BrokerStatus.CONNECTED`
unfoldable pub is_healthy : ℕ → BrokerConnection → Bool
is_healthy now c = ltb (now - c.last_heartbeat) 30000 && is_connected c.status

-- the field `healthy` of `check_broker_health`
unfoldable pub check_broker_health : ℕ → Option String → Dict BrokerConnection → Bool
check_broker_health now active [] = true
check_broker_health now active ((k, c) ∷ d) =
    (is_healthy now c || not (holds_id active k)) && check_broker_health now active d

abbrev pub can_trade : String → String → BrokerConnection → Bool
can_trade source k c = not (str_eq k source) && not (is_failed_broker c.status)

-- `_select_backup_broker`
unfoldable pub select_backup_broker : String → BrokerFailover → Option String
select_backup_broker source m = select (can_trade source) (λ c. c.priority) m.brokers

abbrev pub broker_name : String → BrokerFailover → String
broker_name k m = elim (lookup k m.brokers) [ none ↦ "" | some c ↦ c.name ]

abbrev pub take_over : ℕ → BrokerConnection → BrokerConnection
take_over now c = record c { status = broker_connected; last_connected = some now }

-- The switch itself and what is recorded and sent after it; both names are registered.
unfoldable pub switch_broker :
    String → String → ℕ → ℕ → BrokerFailover → BrokerSwitchReply × BrokerFailover
switch_broker source target start now m =
    let event : BrokerSwitch = record {
      source = source;
      target = target;
      source_name = broker_name source m;
      target_name = broker_name target m;
      duration = now - start;
      timestamp = now;
    } in
    let m' =
      edit_broker target (take_over now)
        (edit_broker source (set_broker_status broker_disconnected) m) in
    (
      broker_switched source target (now - start),
      record m' {
        active_broker_id = some target;
        broker_failover_log = push_bounded 500 m.broker_failover_log event;
        broker_notices = m.broker_notices ++ broker_journal event ∷ on_broker_failover event ∷ [];
      },
    )

unfoldable pub trigger_broker_failover :
    Option String → Option String → ℕ → ℕ → BrokerFailover → BrokerSwitchReply × BrokerFailover
trigger_broker_failover source_broker_id target_broker_id start now m =
    elim (or_text source_broker_id m.active_broker_id) [
      | none ↦ (no_active_broker, m)
      | some source ↦
          if contains source m.brokers
          then elim (or_text target_broker_id (select_backup_broker source m)) [
            | none ↦ (no_healthy_broker, m)
            | some target ↦
                if contains target m.brokers
                then switch_broker source target start now m
                else (broker_target_not_found target, m)
          ]
          else (broker_not_found source, m)
    ]

-- The loop over the orders, from the counts so far: nothing in it can raise, so that no order fails.
unfoldable pub count_orders : List String → ℕ → ℕ → ℕ × ℕ
count_orders [] synced failed = (synced, failed)
count_orders (order ∷ orders) synced failed = count_orders orders (synced + 1) failed

-- The orders, by their identifiers, are counted and nothing more.
unfoldable pub resync_orders : List String → BrokerFailover → ResyncReply
unfolding count_orders
resync_orders orders m = elim (truthy m.active_broker_id) [
  | none ↦ resync_no_active
  | some k ↦ elim (lookup k m.brokers) [
    | none ↦ resync_not_connected
    | some c ↦
        let (synced, failures) = count_orders orders 0 0 in
        if is_connected c.status
        then resynced c.name (length orders) synced failures
        else resync_not_connected
  ]
]
