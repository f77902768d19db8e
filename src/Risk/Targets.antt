-- ===== src/Risk/Targets.antt =====
-- How the day's target of backend/risk_management/daily_target.py and the circuit breaker of
-- backend/risk_management/models.py act together.
use dutchkem_trading_ai.Risk.Breakers.{
  losses_reached, trades_reached, check_circuit_breaker-trips, drawdown_reached, loss_reached,
}
use dutchkem_trading_ai.Common.Int.{ℤ}
use dutchkem_trading_ai.Common.{◌∙◌, arith, ℕ, String, Option, some, Bool, true, false, ◌≡◌, ◌||◌}
use dutchkem_trading_ai.Risk.Monitor.{DrawdownMonitor, RiskParameter, check_circuit_breaker}
use dutchkem_trading_ai.Risk.DailyTarget.{Profile, check_daily_status, override_halt}

-- Once the daily status has found the target reached it forbids trading and marks the monitor; the
-- circuit breaker is then not tripped for the target: a check at which no other limit is reached
-- leaves it as it was.
pub check_circuit_breaker-marked_target :
    (percent : ℤ → ℤ → ℤ) (reaches : ℤ → ℤ → Bool) (profile : Profile) (v65 performance : Option ℤ)
    (equity : ℤ) (p : RiskParameter) (strategy : String) (now : ℕ) (m m' : DrawdownMonitor)
    → let (status, after) = check_daily_status percent profile v65 performance (some m) equity in
      status.is_target_reached ≡ true
      → after ≡ some m'
      → loss_reached reaches p strategy m ≡ false
      → drawdown_reached reaches p strategy m ≡ false
      → trades_reached reaches p strategy m ≡ false
      → losses_reached reaches p strategy m ≡ false
      → (status.is_trading_allowed ≡ false)
        × (m'.is_daily_target_triggered ≡ true)
        × ((check_circuit_breaker reaches p strategy now m').1.is_circuit_breaker_triggered
            ≡ m.is_circuit_breaker_triggered)
unfolding check_daily_status
check_circuit_breaker-marked_target percent reaches profile v65 performance equity p strategy now m
      m' t e a b c d =
    let (trips, _, _, _, _, _) = check_circuit_breaker-trips reaches p strategy now m' in
    (ground arith, ground arith, trips ∙ ground arith)

-- An override of the halt clears the breaker and the mark of the target, but a check at which the
-- loss or the drawdown is at its limit trips the breaker again.
pub check_circuit_breaker-override_halt :
    (reaches : ℤ → ℤ → Bool) (p : RiskParameter) (strategy : String) (now : ℕ)
    (m m' : DrawdownMonitor)
    → override_halt (some m) ≡ some m'
    → loss_reached reaches p strategy m || drawdown_reached reaches p strategy m ≡ true
    → (m'.is_circuit_breaker_triggered ≡ false)
      × ((check_circuit_breaker reaches p strategy now m').1.is_circuit_breaker_triggered ≡ true)
unfolding override_halt
check_circuit_breaker-override_halt reaches p strategy now m m' e h =
    let (trips, _, _, _, _, _) = check_circuit_breaker-trips reaches p strategy now m' in
    (ground arith, trips ∙ ground arith)
