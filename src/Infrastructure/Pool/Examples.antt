-- ===== src/Infrastructure/Pool/Examples.antt =====
-- Tests of the pool of backend/infrastructure/mt5_pool.py, and its theorems at concrete inputs.
use dutchkem_trading_ai.Common.{ℕ, some, false, [], ◌∷◌, ◌≡◌, refl, arith, inl}
use dutchkem_trading_ai.Infrastructure.Balancer.{
  Connection, ConnectionState, idle, in_use, error, least_connections, is_available,
}
use dutchkem_trading_ai.Infrastructure.Pool.Acquiring.{IsSound, Excludes, acquire-Excludes}
use dutchkem_trading_ai.Infrastructure.Pool.Upkeep.{
  started, then_call, acquired, released, PoolRun-IsSound,
}
use dutchkem_trading_ai.Infrastructure.Pool.Checks.{reconnected-unavailable}
use dutchkem_trading_ai.Infrastructure.Pool.{Pool, acquire, release, reconnected}

abbrev new_pool : Pool
new_pool = record {
  max_connections = 2;
  connections = [];
  conn_counter = 0;
  strategy = least_connections;
  round_robin_index = 0;
  reconnect_log = [];
}

abbrev connection : ℕ → ConnectionState → ℕ → ℕ → Connection
connection i s uses errors = record {
  conn_id = i;
  state = s;
  created_at = 1000;
  last_used = 1000;
  use_count = uses;
  error_count = errors;
  latency_ms = 0;
  reconnect_count = 0;
}

abbrev two : Pool
two = record new_pool {
  connections = connection 1 in_use 4 0 ∷ connection 2 idle 3 0 ∷ [];
  conn_counter = 2;
}

two-IsSound : IsSound two
two-IsSound = record {
  within = (omega arith);
  ascending = (omega arith, (omega arith, (omega arith)));
}

idle_one_taken : (acquire 1200 0 two).0 ≡ some 2
unfolding acquire
idle_one_taken = refl

acquire-Excludes_example : Excludes (connection 1 in_use 4 0) (acquire 1200 0 two)
acquire-Excludes_example =
    acquire-Excludes 1200 0 two (connection 1 in_use 4 0) two-IsSound (inl refl) refl

abbrev one_taken : Pool
one_taken = (acquire 1000 0 new_pool).1

PoolRun-IsSound_example :
    IsSound (release 1010 1 one_taken) × ((release 1010 1 one_taken).max_connections ≡ 2)
PoolRun-IsSound_example = PoolRun-IsSound (
    then_call (then_call (started new_pool refl refl) (acquired 1000 0 new_pool))
      (released 1010 1 one_taken))

reconnected-unavailable_example :
    ((reconnected 1300 (connection 3 error 9 6)).state ≡ idle)
    × (is_available (reconnected 1300 (connection 3 error 9 6)) ≡ false)
reconnected-unavailable_example =
    reconnected-unavailable 1300 (connection 3 error 9 6) (omega arith)
