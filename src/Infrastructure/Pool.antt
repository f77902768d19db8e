-- ===== src/Infrastructure/Pool.antt =====
-- The pool of MT5 connections, `MT5ConnectionPool` of backend/infrastructure/mt5_pool.py. The dict of
-- connections is the list of its values in the order of insertion, since the identifier of a new
-- connection is not among its keys.
use dutchkem_trading_ai.Common.{
  ℕ, zero, suc, ◌+◌, ◌-◌, Option, none, some, Bool, true, false, List, [], ◌∷◌, ◌++◌, ltb, ◌==◌,
  not, if◌then◌else◌, length, push_bounded,
}
use dutchkem_trading_ai.Infrastructure.Balancer.{
  ConnectionState, idle, in_use, closed, error, reconnecting, Connection, Strategy, is_idle,
  is_healthy, keep, select_connection,
}
pub mod Acquiring
pub mod Upkeep
pub mod Checks
mod Examples

pub record Reconnect : Type 0 where
  pub conn_id : ℕ
  pub timestamp : ℕ

pub record Pool : Type 0 where
  pub max_connections : ℕ
  pub connections : List Connection
  pub conn_counter : ℕ
  pub strategy : Strategy
  pub round_robin_index : ℕ
  pub reconnect_log : List Reconnect

abbrev pub is_in_use : ConnectionState → Bool
is_in_use in_use = true
is_in_use _ = false

abbrev pub is_closed : ConnectionState → Bool
is_closed closed = true
is_closed _ = false

abbrev pub edit : ℕ → (Connection → Connection) → List Connection → List Connection
edit i f [] = []
edit i f (c ∷ cs) = if c.conn_id == i then f c ∷ cs else c ∷ edit i f cs

abbrev pub holds : ℕ → List Connection → Bool
holds i [] = false
holds i (c ∷ cs) = if c.conn_id == i then true else holds i cs

unfoldable pub take_connection : ℕ → Connection → Connection
take_connection now c = record c { state = in_use; last_used = now; use_count = c.use_count + 1 }

-- a new connection, as the pool returns it: it is taken at once
unfoldable pub new_connection : ℕ → ℕ → Connection
new_connection now i = record {
  conn_id = i;
  state = idle;
  created_at = now;
  last_used = now;
  use_count = 0;
  error_count = 0;
  latency_ms = 0;
  reconnect_count = 0;
}

unfoldable pub acquire_new : ℕ → Pool → Option ℕ × Pool
unfolding new_connection take_connection
acquire_new now p =
    if ltb (length p.connections) p.max_connections
    then (
      some (p.conn_counter + 1),
      record p {
        conn_counter = p.conn_counter + 1;
        connections =
            p.connections ++ take_connection now (new_connection now (p.conn_counter + 1)) ∷ [];
      },
    )
    else (none, p)

unfoldable pub acquire_selected : ℕ → Option Connection → Pool → Option ℕ × Pool
unfolding take_connection acquire_new
acquire_selected now none p = acquire_new now p
acquire_selected now (some c) p =
    if is_idle c.state
    then (
      some c.conn_id,
      record p { connections = edit c.conn_id (take_connection now) p.connections },
    )
    else acquire_new now p

unfoldable pub acquire : ℕ → ℕ → Pool → Option ℕ × Pool
unfolding select_connection acquire_selected
acquire now pick p =
    let (c, turn) = select_connection p.strategy p.round_robin_index pick p.connections in
    acquire_selected now c (record p { round_robin_index = turn })

unfoldable pub release : ℕ → ℕ → Pool → Pool
release now i p = record p {
  connections = edit i (λ c. record c { state = idle; last_used = now }) p.connections;
}

unfoldable pub update_latency : ℕ → ℕ → Pool → Pool
update_latency i ms p = record p {
  connections = edit i (λ c. record c { latency_ms = ms }) p.connections;
}

-- `mark_error` of a connection that a client holds
unfoldable pub mark_error : ℕ → Pool → Pool
mark_error i p = record p {
  connections =
      edit i (λ c. record c { error_count = c.error_count + 1; state = error }) p.connections;
}

-- The maximal age is 3600 seconds.
unfoldable pub is_expired : ℕ → Connection → Bool
is_expired now c = ltb (c.created_at + 3600) now

unfoldable pub examine : ℕ → Connection → Connection
unfolding is_healthy is_expired
examine now c =
    let c' : Connection = if is_healthy c then c else record c { state = closed } in
    if is_expired now c' then record c' { state = closed } else c'

abbrev pub examine_all : ℕ → List Connection → List Connection
examine_all now [] = []
examine_all now (c ∷ cs) = examine now c ∷ examine_all now cs

unfoldable pub count_of : (Connection → Bool) → List Connection → ℕ
count_of p [] = 0
count_of p (c ∷ cs) = (if p c then 1 else 0) + count_of p cs

pub record Health : Type 0 where
  pub total : ℕ
  pub idle_count : ℕ
  pub in_use_count : ℕ
  pub unhealthy : ℕ
  pub examined : List Connection

abbrev pub is_open : Connection → Bool
is_open c = not (is_closed c.state)

unfoldable pub health_check : ℕ → Pool → Health × Pool
unfolding examine keep count_of is_healthy
health_check now p =
    let results = examine_all now p.connections in
    let left = keep is_open results in
    (
      record {
        total = length left;
        idle_count = count_of (λ c. is_idle c.state) left;
        in_use_count = count_of (λ c. is_in_use c.state) left;
        unhealthy = count_of (λ c. not (is_healthy c)) left;
        examined = results;
      },
      record p { connections = left },
    )

unfoldable pub reconnected : ℕ → Connection → Connection
reconnected now c = record c {
  state = idle;
  error_count = c.error_count - 1;
  reconnect_count = c.reconnect_count + 1;
  last_used = now;
}

-- No other thread is seen between its two writes of the state, RECONNECTING before the wait of half a
-- second and IDLE after it.
unfoldable pub reconnect_connection : ℕ → ℕ → Pool → Bool × Pool
unfolding reconnected
reconnect_connection now i p =
    if holds i p.connections
    then (
      true,
      record p {
        connections = edit i (reconnected now) p.connections;
        reconnect_log = push_bounded 100 p.reconnect_log (record { conn_id = i; timestamp = now });
      },
    )
    else (false, p)
