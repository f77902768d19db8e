-- ===== src/Risk/Days.antt =====
-- A trading day from its reset to its trades: backend/risk_management/models.py, `reset_daily` and
-- `update_daily_pnl`.
use dutchkem_trading_ai.Risk.Breakers.{check_circuit_breaker-trips}
use dutchkem_trading_ai.Risk.Numeric.{cents_of, is_negative, decimal, float, add}
use dutchkem_trading_ai.Common.Exec.{◌>>=◌, ok, ◌>>◌, err, pure, Exec}
use dutchkem_trading_ai.Common.Int.{parts_of_eq, eq_of_parts, int_laws, ◌+ℤ◌, pos, ℤ}
use dutchkem_trading_ai.Common.{
  length, ◌+◌, refl, arith, ◌∙◌, ℕ, String, List, [], ◌∷◌, Bool, true, false, ◌≡◌,
}
use dutchkem_trading_ai.Risk.Monitor.{
  effective_daily_loss, reread, check_circuit_breaker, effective_max_dd, update_daily_pnl,
  reset_daily, DrawdownMonitor, RiskParameter,
}

-- The reset of the day clears the breaker, yet where the drawdown is at its limit the next check
-- trips it again.
pub check_circuit_breaker-reset_daily :
    (reaches : ℤ → ℤ → Bool) (p : RiskParameter) (strategy : String) (now later : ℕ)
    (m : DrawdownMonitor)
    → reaches m.drawdown_percent (effective_max_dd strategy p) ≡ true
    → ((reset_daily now m).is_circuit_breaker_triggered ≡ false)
      × ((check_circuit_breaker reaches p strategy later
            (reset_daily now m)).1.is_circuit_breaker_triggered
          ≡ true)
unfolding reset_daily
check_circuit_breaker-reset_daily reaches p strategy now later m h =
    let (e, _, _, _, _, _) =
      check_circuit_breaker-trips reaches p strategy later (reset_daily now m) in
    (refl, e ∙ ground arith)

-- A trade's result in floats cannot be added to a profit that was read from the database: the update
-- raises TypeError and changes nothing.
pub update_daily_pnl-float :
    (percent : ℤ → ℤ → ℤ) (pnl : ℤ) (now : ℕ) (m : DrawdownMonitor)
    → update_daily_pnl percent (float pnl) now (reread m) ≡ (err "TypeError", reread m)
unfolding update_daily_pnl add
update_daily_pnl-float percent pnl now m = refl

-- The day's trades recorded as Decimals.
unfoldable pub record_trades : (ℤ → ℤ → ℤ) → ℕ → List ℤ → Exec DrawdownMonitor String Unit
record_trades percent now [] = pure tt
record_trades percent now (z ∷ l) =
    update_daily_pnl percent (decimal z) now >> record_trades percent now l

abbrev pub sum : List ℤ → ℤ
sum [] = pos 0
sum (z ∷ l) = z +ℤ sum l

update_daily_pnl-decimal :
    (percent : ℤ → ℤ → ℤ) (z : ℤ) (now : ℕ) (m : DrawdownMonitor)
    → (m' : DrawdownMonitor) × (update_daily_pnl percent (decimal z) now (reread m)
        ≡ (ok tt, reread m'))
      × (cents_of m'.daily_pnl ≡ cents_of m.daily_pnl +ℤ z)
      × (m'.daily_trades_count ≡ m.daily_trades_count + 1)
unfolding update_daily_pnl add
update_daily_pnl-decimal percent z now m = (
  (update_daily_pnl percent (decimal z) now (reread m)).1,
  ground arith,
  ground arith,
  ground arith,
)

add_step : {x : ℤ} (y z s : ℤ) → x ≡ y +ℤ z → x +ℤ s ≡ y +ℤ (z +ℤ s)
add_step {x} y z s h = eq_of_parts (x +ℤ s) (y +ℤ (z +ℤ s)) (omega (int_laws, parts_of_eq h))

record_trades-snd :
    (percent : ℤ → ℤ → ℤ) (now : ℕ) (z : ℤ) (l : List ℤ) (m m' : DrawdownMonitor)
    → update_daily_pnl percent (decimal z) now m ≡ (ok tt, m')
    → record_trades percent now (z ∷ l) m ≡ record_trades percent now l m'
unfolding record_trades ◌>>=◌
record_trades-snd percent now z l m m' e = rw e refl

-- The trades of a day, recorded as Decimals one after the other on a row of the database, are all
-- accepted: the profit of the day grows by their sum, and the count of trades by their number.
pub record_trades-total :
    (percent : ℤ → ℤ → ℤ) (now : ℕ) (l : List ℤ) (m : DrawdownMonitor)
    → let (r, m') = record_trades percent now l (reread m) in
      (r ≡ ok tt)
      × (cents_of m'.daily_pnl ≡ cents_of m.daily_pnl +ℤ sum l)
      × (m'.daily_trades_count ≡ m.daily_trades_count + length l)
unfolding record_trades pure
record_trades-total percent now [] m = (
  refl,
  eq_of_parts (cents_of m.daily_pnl) (cents_of m.daily_pnl +ℤ pos 0) (omega (int_laws)),
  omega arith,
)
record_trades-total percent now (z ∷ l) m =
    let (m', e, a, b) = update_daily_pnl-decimal percent z now m in
    let (r, c, d) = record_trades-total percent now l m' in
    let f = record_trades-snd percent now z l (reread m) (reread m') e in
    (rw f r, rw f (c ∙ add_step (cents_of m.daily_pnl) z (sum l) a), rw f (d ∙ omega arith))

-- Once the day's loss has been made good, the update leaves the loss percentage of before, and the
-- next check still trips the breaker for it.
pub update_daily_pnl-stale_loss :
    (percent : ℤ → ℤ → ℤ) (reaches : ℤ → ℤ → Bool) (p : RiskParameter) (strategy : String) (z : ℤ)
    (now later : ℕ) (m : DrawdownMonitor)
    → is_negative (cents_of m.daily_pnl +ℤ z) ≡ false
    → reaches m.daily_loss_percent (effective_daily_loss strategy p) ≡ true
    → let m' = (update_daily_pnl percent (decimal z) now (reread m)).1 in
      (is_negative (cents_of m'.daily_pnl) ≡ false)
      × (m'.daily_loss_percent ≡ m.daily_loss_percent)
      × ((check_circuit_breaker reaches p strategy later m').1.is_circuit_breaker_triggered ≡ true)
unfolding update_daily_pnl add
update_daily_pnl-stale_loss percent reaches p strategy z now later m h k =
    let m' = (update_daily_pnl percent (decimal z) now (reread m)).1 in
    let (e, _, _, _, _, _) = check_circuit_breaker-trips reaches p strategy later m' in
    (ground arith, ground arith, e ∙ ground arith)
