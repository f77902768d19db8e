-- ===== src/Trading/Validation.antt =====
-- `validate_order` of backend/trading/services.py. Volumes of an order and prices are in millionths,
-- equity in cents, the correlations' absolute values in ten-thousandths; the floats are exact, and an
-- exposure is in units of 10^-12. The equity and the limits are not negative.
use dutchkem_trading_ai.Common.Int.{pos, pos_part, leb_ℤ}
use dutchkem_trading_ai.Trading.Books.{sell, buy, Side}
use dutchkem_trading_ai.Risk.Monitor.{DrawdownMonitor, RiskParameter}
use dutchkem_trading_ai.Common.{
  str_eq, [], ◌∷◌, zero, ◌&&◌, suc, leb, ◌-◌, ◌+◌, ◌*◌, some, none, ltb, if◌then◌else◌, ℕ, true,
  false, String, Option, List, Bool,
}
use Prim.Native.String.{compare, ◌++◌ as concat}
use Prim.Native.Nat.{lt, eq, gt}
pub mod Screening
mod Examples

pub data Refusal : Type 0 where
  no_active_risk_parameters circuit_breaker_triggered daily_loss_limit max_drawdown_reached :
      Refusal
  max_trades_reached daily_target_reached below_minimum_lot position_size_exceeds : Refusal
  portfolio_exposure_too_high net_directional_too_high : Refusal

pub record Checks : Type 0 where
  pub daily_loss_ok : Bool
  pub drawdown_ok : Bool
  pub daily_trades_ok : Bool
  pub position_size_ok : Bool
  pub daily_target_ok : Bool
  pub portfolio_exposure_ok : Bool
  pub correlation_ok : Bool
  pub net_directional_ok : Bool
  pub adjusted_volume : Option ℕ

abbrev pub all_ok : Checks
all_ok = record {
  daily_loss_ok = true;
  drawdown_ok = true;
  daily_trades_ok = true;
  position_size_ok = true;
  daily_target_ok = true;
  portfolio_exposure_ok = true;
  correlation_ok = true;
  net_directional_ok = true;
  adjusted_volume = none;
}

pub record OpenPosition : Type 0 where
  pub symbol_name : String
  pub side : Side
  pub volume : ℕ
  pub contract_size : ℕ
  pub current_price : ℕ

pub record NewOrder : Type 0 where
  pub symbol : String
  -- the symbol's current price, where it has one
  pub quoted : Option ℕ
  pub position_type : Side
  pub size : ℕ

-- what a call reads, with `round(x, 2)` of a size over a power of 10000
pub record Account : Type 0 where
  pub risk_params : Option RiskParameter
  pub monitor : Option DrawdownMonitor
  pub equity : ℕ
  pub open_positions : List OpenPosition
  pub correlation : String → Option ℕ
  pub round_lots : ℕ → ℕ → ℕ

-- the flag that goes down with a refusal
unfoldable pub put_down : Refusal → Checks → Checks
put_down daily_loss_limit c = record c { daily_loss_ok = false }
put_down max_drawdown_reached c = record c { drawdown_ok = false }
put_down max_trades_reached c = record c { daily_trades_ok = false }
put_down daily_target_reached c = record c { daily_target_ok = false }
put_down below_minimum_lot c = record c { position_size_ok = false }
put_down position_size_exceeds c = record c { position_size_ok = false }
put_down portfolio_exposure_too_high c = record c { portfolio_exposure_ok = false }
put_down net_directional_too_high c = record c { net_directional_ok = false }
put_down no_active_risk_parameters c = c
put_down circuit_breaker_triggered c = c

unfoldable pub monitor_refusal : RiskParameter → DrawdownMonitor → Option Refusal
monitor_refusal p m =
    if m.is_circuit_breaker_triggered
    then some circuit_breaker_triggered
    else if m.is_daily_loss_triggered
    then some daily_loss_limit
    else if m.is_drawdown_triggered
    then some max_drawdown_reached
    else if m.is_max_trades_triggered
    then some max_trades_reached
    else if m.is_daily_target_triggered
    then some daily_target_reached
    else if leb_ℤ p.max_daily_trades (pos m.daily_trades_count)
    then some max_trades_reached
    else none

abbrev price_of : Option ℕ → ℕ
price_of none = 1000000
price_of (some zero) = 1000000
price_of (some (suc n)) = suc n

unfoldable pub new_exposure : NewOrder → ℕ
new_exposure o = o.size * 100000 * price_of o.quoted

unfoldable pub exposure : OpenPosition → ℕ
exposure p = p.volume * p.contract_size * p.current_price * 100

unfoldable pub total_exposure : List OpenPosition → ℕ
unfolding exposure
total_exposure [] = 0
total_exposure (p ∷ ps) = exposure p + total_exposure ps

abbrev pub same_side : Side → Side → Bool
same_side buy buy = true
same_side sell sell = true
same_side buy sell = false
same_side sell buy = false

unfoldable pub side_exposure : Side → List OpenPosition → ℕ
unfolding exposure
side_exposure s [] = 0
side_exposure s (p ∷ ps) = (if same_side s p.side then exposure p else 0) + side_exposure s ps

unfoldable pub size_refusal : RiskParameter → Account → NewOrder → Option Refusal
unfolding total_exposure new_exposure
size_refusal p a o =
    if ltb o.size 10000
    then some below_minimum_lot
    else if ltb (a.equity * pos_part p.max_position_size * 20) (o.size * 100000)
    then some position_size_exceeds
    else if ltb 0 a.equity
        && ltb (a.equity * 10000000000) ((total_exposure a.open_positions + new_exposure o) * 2)
    then some portfolio_exposure_too_high
    else none

-- the names of a pair in alphabetical order
unfoldable pub pair_key : String → String → String
pair_key x y = elim (compare x y) [
  | lt ↦ concat x (concat "-" y)
  | eq ↦ concat x (concat "-" y)
  | gt ↦ concat y (concat "-" x)
]

-- `max(0.25, 1 - (|corr| - max_correlation))`
unfoldable pub reduction : ℕ → ℕ → ℕ
reduction limit corr = let f = 10000 + limit - corr in if ltb f 2500 then 2500 else f

-- The size so far is `size / 10000 ^ power`.
unfoldable pub correlate :
    RiskParameter → Account → String → ℕ → ℕ → List OpenPosition → Checks → Checks
unfolding pair_key reduction
correlate p a name size power [] c = c
correlate p a name size power (q ∷ qs) c =
    let limit = pos_part p.max_correlation * 100 in
    let skip = correlate p a name size power qs c in
    if str_eq q.symbol_name name then skip else elim (a.correlation (pair_key q.symbol_name name)) [
      | none ↦ skip
      | some corr ↦
          let size' = size * reduction limit corr in
          let reduced = correlate p a name size' (suc power) qs (record c {
            correlation_ok = false;
            adjusted_volume = some (a.round_lots size' (suc power));
          }) in
          if ltb limit corr then reduced else skip
    ]

abbrev pub distance : ℕ → ℕ → ℕ
distance m n = m - n + (n - m)

unfoldable pub one_sided : ℕ → ℕ → Bool
one_sided long short = ltb 0 (long + short) && ltb (70 * (long + short)) (distance long short * 100)

abbrev pub added : Side → NewOrder → ℕ
added s o = if same_side s o.position_type then new_exposure o else 0

unfoldable pub directional_refusal : Account → NewOrder → Option Refusal
unfolding side_exposure one_sided new_exposure
directional_refusal a o =
    if one_sided (side_exposure buy a.open_positions + added buy o)
      (side_exposure sell a.open_positions + added sell o)
    then some net_directional_too_high
    else none

-- the refusal, if any, and the checks
abbrev pub Validation : Type 0
Validation = Option Refusal × Option Checks

abbrev verdict : Option Refusal → Checks → Validation
verdict none c = (none, some c)
verdict (some r) c = (some r, some (put_down r c))

abbrev first_refusal : Option Refusal → Option Refusal → Option Refusal
first_refusal r q = elim r [ none ↦ q | some x ↦ some x ]

abbrev early_refusal : RiskParameter → Account → NewOrder → Option Refusal
early_refusal p a o =
    first_refusal (elim a.monitor [ none ↦ none | some m ↦ monitor_refusal p m ])
      (size_refusal p a o)

unfoldable pub validate_order : Account → NewOrder → Validation
unfolding put_down monitor_refusal size_refusal correlate directional_refusal
validate_order a o = elim a.risk_params [
  | none ↦ (some no_active_risk_parameters, none)
  | some p ↦ elim (early_refusal p a o) [
    | some r ↦ verdict (some r) all_ok
    | none ↦
        verdict (directional_refusal a o) (correlate p a o.symbol o.size 0 a.open_positions all_ok)
  ]
]
