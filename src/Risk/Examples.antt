-- ===== src/Risk/Examples.antt =====
-- Tests of the risk limits of backend/risk_management/models.py, and their theorems at concrete
-- inputs.
use dutchkem_trading_ai.Risk.GoldEdge.{
  check_gold_edge-passes, check_gold_edge, triggered, GoldEdgeRiskParameter,
}
use dutchkem_trading_ai.Common.Exec.{err}
use dutchkem_trading_ai.Risk.Breakers.{check_circuit_breaker-trips, is_empty}
use dutchkem_trading_ai.Risk.Days.{update_daily_pnl-float}
use dutchkem_trading_ai.Common.Int.{◌*ℤ◌, negsuc, leb_ℤ, ℤ, pos}
use dutchkem_trading_ai.Common.{length, arith, ◌/◌, Bool, true, false, ◌≡◌, none, refl}
use dutchkem_trading_ai.Risk.Monitor.{
  check_consecutive_losses, check_max_trades, check_daily_target, check_drawdown, check_daily_loss,
  ◌then_check◌, stamp, reread, update_daily_pnl, check_circuit_breaker, DrawdownMonitor,
  RiskParameter,
}
use dutchkem_trading_ai.Risk.Numeric.{float, decimal}

abbrev limits : RiskParameter
limits = record {
  max_daily_loss = pos 200;
  daily_target_lock = pos 40;
  max_daily_trades = pos 10;
  max_drawdown = pos 1500;
  max_position_size = pos 100;
  max_correlation = pos 70;
  gold_edge_enabled = true;
  gold_edge_max_drawdown = pos 3000;
  gold_edge_circuit_breaker_loss = pos 500;
  gold_edge_circuit_breaker_consecutive_losses = pos 4;
}

abbrev losing : DrawdownMonitor
losing = record {
  peak_equity = decimal (pos 120000);
  current_equity = decimal (pos 97000);
  starting_equity_today = decimal (pos 100000);
  drawdown_percent = pos 1600;
  daily_pnl = decimal (negsuc 2999);
  daily_pnl_percent = negsuc 299;
  daily_loss_percent = pos 300;
  daily_trades_count = 3;
  is_daily_loss_triggered = false;
  is_drawdown_triggered = false;
  is_daily_target_triggered = false;
  is_max_trades_triggered = false;
  is_circuit_breaker_triggered = false;
  gold_edge_consecutive_losses = 1;
  triggered_at = none;
  daily_reset_at = none;
  updated_at = 5;
}

abbrev at_least_exact : ℤ → ℤ → Bool
at_least_exact x y = leb_ℤ y x

-- basis points of a profit of a starting equity of 1,000.00
abbrev of_thousand : ℤ → ℤ → ℤ
of_thousand (pos n) _ = pos (n / 10)
of_thousand (negsuc n) _ = negsuc (n / 10)

two_alerts : length (check_circuit_breaker at_least_exact limits "standard" 9 losing).0 ≡ 2
unfolding check_circuit_breaker stamp ◌then_check◌ check_daily_loss check_drawdown
    check_daily_target check_max_trades check_consecutive_losses
two_alerts = refl

check_circuit_breaker-trips_example :
    let (alerts, m') = check_circuit_breaker at_least_exact limits "standard" 9 losing in
    (m'.is_circuit_breaker_triggered ≡ true)
    × (m'.is_daily_loss_triggered ≡ true)
    × (m'.is_drawdown_triggered ≡ true)
    × (m'.is_daily_target_triggered ≡ false)
    × (m'.is_max_trades_triggered ≡ false)
    × (is_empty alerts ≡ false)
check_circuit_breaker-trips_example =
    check_circuit_breaker-trips at_least_exact limits "standard" 9 losing

update_daily_pnl-float_example :
    update_daily_pnl of_thousand (float (pos 500)) 9 (reread losing)
    ≡ (err "TypeError", reread losing)
update_daily_pnl-float_example = update_daily_pnl-float of_thousand (pos 500) 9 losing

abbrev gold_limits : GoldEdgeRiskParameter
gold_limits = record {
  max_consecutive_losses = pos 5;
  max_daily_gold_edge_trades = pos 8;
  gold_max_drawdown = pos 3000;
  min_time_between_trades_minutes = pos 15;
}

check_gold_edge-passes_example :
    triggered (check_gold_edge gold_limits (pos 1) (pos 2) (pos 100) (pos 20000)) ≡ false
unfolding ◌*ℤ◌
check_gold_edge-passes_example =
    let p = check_gold_edge-passes gold_limits (pos 1) (pos 2) (pos 100) (pos 20000) in
    p.1 (omega arith) (omega arith) (omega arith) (omega arith)

-- a day's gain of 1.5 percent, past the moderate profile's target
abbrev winning : DrawdownMonitor
winning = record losing {
  drawdown_percent = pos 0;
  daily_loss_percent = pos 0;
  daily_pnl_percent = pos 150;
}
