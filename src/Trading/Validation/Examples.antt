-- ===== src/Trading/Validation/Examples.antt =====
-- Orders screened by `validate_order` of backend/trading/services.py.
use dutchkem_trading_ai.Common.Int.{pos}
use dutchkem_trading_ai.Trading.Validation.Screening.{
  validate_order-first_refused, validate_order-Screened, Screened,
}
use dutchkem_trading_ai.Trading.Validation.{
  net_directional_too_high, pos, NewOrder, Account, validate_order, OpenPosition,
}
use dutchkem_trading_ai.Trading.Books.{buy, sell, Side}
use dutchkem_trading_ai.Risk.Monitor.{RiskParameter}
use dutchkem_trading_ai.Common.{◌≢◌, refl, ◌≡◌, some, none, false, ◌∷◌, [], List}

abbrev limits : RiskParameter
limits = record {
  max_daily_loss = pos 500;
  daily_target_lock = pos 1000;
  max_daily_trades = pos 10;
  max_drawdown = pos 1000;
  max_position_size = pos 100;
  max_correlation = pos 70;
  gold_edge_enabled = false;
  gold_edge_max_drawdown = pos 0;
  gold_edge_circuit_breaker_loss = pos 0;
  gold_edge_circuit_breaker_consecutive_losses = pos 0;
}

-- an equity of 10000.00, and positions as given
abbrev trader : List OpenPosition → Account
trader ps = record {
  risk_params = some limits;
  monitor = none;
  equity = 1000000;
  open_positions = ps;
  correlation = λ k. none;
  round_lots = λ n k. n;
}

-- a hundredth of a lot
abbrev micro_lot : Side → NewOrder
micro_lot s = record { symbol = "EURUSD"; quoted = none; position_type = s; size = 10000 }

abbrev short_position : OpenPosition
short_position = record {
  symbol_name = "GBPUSD";
  side = sell;
  volume = 1;
  contract_size = 10000000;
  current_price = 1200000;
}

first_is_one_sided : (validate_order (trader []) (micro_lot buy)).0 ≡ some net_directional_too_high
unfolding validate_order
first_is_one_sided = refl

hedge_passes : (validate_order (trader (short_position ∷ [])) (micro_lot buy)).0 ≡ none
unfolding validate_order
hedge_passes = refl

same_side_refused :
    (validate_order (trader (short_position ∷ [])) (micro_lot sell)).0
    ≡ some net_directional_too_high
unfolding validate_order
same_side_refused = refl

validate_order-first_refused_example : (validate_order (trader []) (micro_lot buy)).0 ≢ none
validate_order-first_refused_example = validate_order-first_refused (trader []) (micro_lot buy) refl

validate_order-Screened_example : Screened limits (trader (short_position ∷ [])) (micro_lot buy)
validate_order-Screened_example =
    validate_order-Screened (trader (short_position ∷ [])) (micro_lot buy) limits refl hedge_passes
