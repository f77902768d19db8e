-- ===== src/Risk/Monitor.antt =====
-- The circuit breakers of a trader: `DrawdownMonitor` and the limits that it reads, in
-- backend/risk_management/models.py. Percentages are in hundredths of a percent, times whole
-- milliseconds; of an alert's message the figures are kept.
use dutchkem_trading_ai.Common.Exec.{ok, err, Exec}
use dutchkem_trading_ai.Risk.Numeric.{
  join, is_positive, add, abs, cents_of, is_negative, stored, int, Numeric,
}
use dutchkem_trading_ai.Common.Int.{pos, leb_ℤ, ℤ}
use dutchkem_trading_ai.Common.{
  none, some, ◌+◌, not, Option, ◌++◌, str_eq, some, if◌then◌else◌, ℕ, String, List, [], ◌∷◌, Bool,
  true, false, ◌&&◌,
}

-- The limits that the checks read.
pub record RiskParameter : Type 0 where
  pub max_daily_loss : ℤ
  pub daily_target_lock : ℤ
  pub max_daily_trades : ℤ
  pub max_drawdown : ℤ
  pub max_position_size : ℤ
  pub max_correlation : ℤ
  pub gold_edge_enabled : Bool
  pub gold_edge_max_drawdown : ℤ
  pub gold_edge_circuit_breaker_loss : ℤ
  pub gold_edge_circuit_breaker_consecutive_losses : ℤ

pub record DrawdownMonitor : Type 0 where
  pub peak_equity : Numeric
  pub current_equity : Numeric
  pub starting_equity_today : Numeric
  pub drawdown_percent : ℤ
  pub daily_pnl : Numeric
  pub daily_pnl_percent : ℤ
  pub daily_loss_percent : ℤ
  pub daily_trades_count : ℕ
  pub is_daily_loss_triggered : Bool
  pub is_drawdown_triggered : Bool
  pub is_daily_target_triggered : Bool
  pub is_max_trades_triggered : Bool
  pub is_circuit_breaker_triggered : Bool
  pub gold_edge_consecutive_losses : ℕ
  pub triggered_at : Option ℕ
  pub daily_reset_at : Option ℕ
  pub updated_at : ℕ

pub data AlertType : Type 0 where
  daily_loss : AlertType
  drawdown : AlertType
  daily_target : AlertType
  max_trades : AlertType
  consecutive_losses : AlertType
  recovery_max_trades : AlertType
  recovery_halt : AlertType
  recovery_gold_edge_only : AlertType

pub data Severity : Type 0 where
  low : Severity
  medium : Severity
  high : Severity
  critical : Severity
  info : Severity

pub record Alert : Type 0 where
  pub alert_type : AlertType
  pub severity : Severity
  pub figures : List ℤ

abbrev pub alert : AlertType → Severity → List ℤ → Alert
alert t s l = record { alert_type = t; severity = s; figures = l }

-- `save()`: `auto_now` stamps the row
abbrev pub save_monitor : ℕ → DrawdownMonitor → DrawdownMonitor
save_monitor now m = record m { updated_at = now }

-- The row as a query returns it.
abbrev pub reread : DrawdownMonitor → DrawdownMonitor
reread m = record m {
  peak_equity = stored m.peak_equity;
  current_equity = stored m.current_equity;
  starting_equity_today = stored m.starting_equity_today;
  daily_pnl = stored m.daily_pnl;
}

abbrev pub trip : DrawdownMonitor → DrawdownMonitor
trip m = record m { is_circuit_breaker_triggered = true }

abbrev pub uses_gold_edge : String → RiskParameter → Bool
uses_gold_edge strategy p = str_eq strategy "gold_edge" && p.gold_edge_enabled

abbrev pub effective_max_dd : String → RiskParameter → ℤ
effective_max_dd strategy p =
    if uses_gold_edge strategy p then p.gold_edge_max_drawdown else p.max_drawdown

abbrev pub effective_daily_loss : String → RiskParameter → ℤ
effective_daily_loss strategy p =
    if uses_gold_edge strategy p then p.gold_edge_circuit_breaker_loss else p.max_daily_loss

-- One check: the monitor after it, and its alerts.
abbrev pub Check : Type 0
Check = DrawdownMonitor → DrawdownMonitor × List Alert

infixl 5 ◌then_check◌
unfoldable pub ◌then_check◌ : Check → Check → Check
(c then_check e) m = let (m', xs) = c m in let (m'', ys) = e m' in (m'', xs ++ ys)

-- the end of both checks
unfoldable pub stamp : ℕ → DrawdownMonitor × List Alert → List Alert × DrawdownMonitor
stamp now (m, []) = ([], save_monitor now m)
stamp now (m, a ∷ l) = (a ∷ l, save_monitor now (record m { triggered_at = some m.updated_at }))

unfoldable pub check_daily_target : RiskParameter → Check
check_daily_target p m =
    if not m.is_daily_target_triggered
    then (if leb_ℤ p.daily_target_lock m.daily_pnl_percent
        then (
          trip (record m { is_daily_target_triggered = true }),
          alert daily_target info (m.daily_pnl_percent ∷ []) ∷ [],
        )
        else (m, []))
    else (m, alert daily_target info (m.daily_pnl_percent ∷ []) ∷ [])

unfoldable pub check_max_trades : RiskParameter → Check
check_max_trades p m =
    if leb_ℤ p.max_daily_trades (pos m.daily_trades_count)
    then (
      trip (record m { is_max_trades_triggered = true }),
      alert max_trades high (pos m.daily_trades_count ∷ []) ∷ [],
    )
    else (m, [])

unfoldable pub check_consecutive_losses : String → RiskParameter → Check
check_consecutive_losses strategy p m =
    let limit = p.gold_edge_circuit_breaker_consecutive_losses in
    if uses_gold_edge strategy p && leb_ℤ limit (pos m.gold_edge_consecutive_losses)
    then (
      trip m,
      alert consecutive_losses critical (pos m.gold_edge_consecutive_losses ∷ limit ∷ []) ∷ [],
    )
    else (m, [])

-- `reaches x y` is Python's `x >= float(y)` for two Decimals.
module _ (reaches : ℤ → ℤ → Bool) where
  unfoldable pub check_daily_loss : String → RiskParameter → Check
  check_daily_loss strategy p m =
      let limit = effective_daily_loss strategy p in
      if reaches m.daily_loss_percent limit
      then (
        trip (record m { is_daily_loss_triggered = true }),
        alert daily_loss critical (m.daily_loss_percent ∷ limit ∷ []) ∷ [],
      )
      else (m, [])

  unfoldable pub check_drawdown : String → RiskParameter → Check
  check_drawdown strategy p m =
      let limit = effective_max_dd strategy p in
      if reaches m.drawdown_percent limit
      then (
        trip (record m { is_drawdown_triggered = true }),
        alert drawdown critical (m.drawdown_percent ∷ limit ∷ []) ∷ [],
      )
      else (m, [])

  unfoldable pub check_circuit_breaker :
      RiskParameter → String → ℕ → DrawdownMonitor → List Alert × DrawdownMonitor
  check_circuit_breaker p strategy now m = stamp now (
      (check_daily_loss strategy p
          then_check check_drawdown strategy p
          then_check check_daily_target p
          then_check check_max_trades p
          then_check check_consecutive_losses strategy p)
        m)

-- `update_daily_pnl`: in the object first, so that a TypeError leaves what was already written.
module _ (percent : ℤ → ℤ → ℤ) where
  -- the percentage of the starting equity, and the loss where there is one
  abbrev pub with_percent : DrawdownMonitor → DrawdownMonitor
  with_percent m =
      let pct = percent (cents_of m.daily_pnl) (cents_of m.starting_equity_today) in
      let m' = record m { daily_pnl_percent = pct } in
      if is_negative (cents_of m.daily_pnl) then record m' { daily_loss_percent = abs pct } else m'

  unfoldable pub update_daily_pnl : Numeric → ℕ → Exec DrawdownMonitor String Unit
  update_daily_pnl trade_pnl now m = elim (add m.daily_pnl trade_pnl) [
    | none ↦ (err "TypeError", m)
    | some total ↦
        let m' = record m { daily_pnl = total; daily_trades_count = m.daily_trades_count + 1 } in
        if is_positive (cents_of m'.starting_equity_today)
        then elim (join total m'.starting_equity_today (pos 0)) [
          | none ↦ (err "TypeError", m')
          | some _ ↦ (ok tt, save_monitor now (with_percent m'))
        ]
        else (ok tt, save_monitor now m')
  ]

unfoldable pub reset_daily : ℕ → DrawdownMonitor → DrawdownMonitor
reset_daily now m = save_monitor now (record m {
  starting_equity_today = m.current_equity;
  daily_pnl = int (pos 0);
  daily_pnl_percent = pos 0;
  daily_loss_percent = pos 0;
  daily_trades_count = 0;
  is_daily_loss_triggered = false;
  is_daily_target_triggered = false;
  is_max_trades_triggered = false;
  is_circuit_breaker_triggered = false;
  daily_reset_at = some m.updated_at;
})

unfoldable pub record_gold_edge_trade : ℤ → ℕ → DrawdownMonitor → DrawdownMonitor
record_gold_edge_trade pnl now m = save_monitor now (record m {
  gold_edge_consecutive_losses = if is_negative pnl then m.gold_edge_consecutive_losses + 1 else 0;
})
