-- ===== src/Infrastructure/Balancer.antt =====
-- A connection to MT5 and the choice of one, `MT5Connection` and `LoadBalancer` of
-- backend/infrastructure/mt5_pool.py. The identifier `mt5-n` is the number n; latencies and times
-- are whole numbers.
use dutchkem_trading_ai.Common.{
  ℕ, zero, suc, ◌+◌, ◌%◌, Option, none, some, Bool, true, false, List, [], ◌∷◌, ltb, ◌==◌, ◌&&◌,
  not, if◌then◌else◌, length,
}
pub mod Choice

pub data ConnectionState : Type 0 where
  idle in_use closed error reconnecting : ConnectionState

pub record Connection : Type 0 where
  pub conn_id : ℕ
  pub state : ConnectionState
  pub created_at : ℕ
  pub last_used : ℕ
  pub use_count : ℕ
  pub error_count : ℕ
  pub latency_ms : ℕ
  pub reconnect_count : ℕ

-- Any other name of a strategy works as round robin.
pub data Strategy : Type 0 where
  round_robin least_connections random latency_based : Strategy

abbrev pub is_idle : ConnectionState → Bool
is_idle idle = true
is_idle _ = false

abbrev pub is_broken : ConnectionState → Bool
is_broken error = true
is_broken closed = true
is_broken _ = false

unfoldable pub is_healthy : Connection → Bool
is_healthy c = not (is_broken c.state) && ltb c.error_count 5

unfoldable pub is_available : Connection → Bool
unfolding is_healthy
is_available c = is_idle c.state && is_healthy c

unfoldable pub keep : (Connection → Bool) → List Connection → List Connection
keep p [] = []
keep p (c ∷ cs) = let rest = keep p cs in if p c then c ∷ rest else rest

-- `min(connections, key=...)`: the first of the smallest key
unfoldable pub min_by : (Connection → Connection → Bool) → Connection → List Connection → Connection
min_by less best [] = best
min_by less best (c ∷ cs) = min_by less (if less c best then c else best) cs

-- the latency that is compared: none measured counts as infinite
unfoldable pub latency_less : Connection → Connection → Bool
latency_less a b =
    if a.latency_ms == 0
    then false
    else if b.latency_ms == 0
    then true
    else ltb a.latency_ms b.latency_ms

unfoldable pub use_less : Connection → Connection → Bool
use_less a b = ltb a.use_count b.use_count

-- the entry at an index, for a list that is not empty: its first and its rest
unfoldable pub nth : ℕ → Connection → List Connection → Connection
nth zero c cs = c
nth (suc n) c [] = c
nth (suc n) c (d ∷ cs) = nth n d cs

unfoldable pub choose : Strategy → ℕ → ℕ → Connection → List Connection → Connection × ℕ
unfolding min_by latency_less use_less nth
choose round_robin turn pick c cs = (nth (turn % suc (length cs)) c cs, turn + 1)
choose least_connections turn pick c cs = (min_by use_less c cs, turn)
choose random turn pick c cs = (nth (pick % suc (length cs)) c cs, turn)
choose latency_based turn pick c cs = (min_by latency_less c cs, turn)

unfoldable pub choose_from : Strategy → ℕ → ℕ → List Connection → Option Connection × ℕ
choose_from s turn pick [] = (none, turn)
choose_from s turn pick (c ∷ cs) = let (d, turn') = choose s turn pick c cs in (some d, turn')

-- `pick` is the number that `random.choice` draws; also returned is the round robin's next index.
unfoldable pub select_connection : Strategy → ℕ → ℕ → List Connection → Option Connection × ℕ
unfolding is_available keep choose choose_from
select_connection s turn pick cs = choose_from s turn pick (keep is_available cs)
