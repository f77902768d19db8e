-- ===== src/Risk/GoldEdge.antt =====
-- The limits of the Gold Edge strategy: `GoldEdgeRiskParameter` of backend/risk_management/models.py.
-- Percentages are in hundredths of a percent, minutes in thousandths.
use dutchkem_trading_ai.Common.Int.{◌≤ℤ◌, ◌<ℤ◌, ltb_ℤ, ◌*ℤ◌, leb_ℤ, pos, ℤ}
use dutchkem_trading_ai.Common.{arith, if◌then◌else◌, Bool, true, false, ◌≡◌}

pub record GoldEdgeRiskParameter : Type 0 where
  pub max_consecutive_losses : ℤ
  pub max_daily_gold_edge_trades : ℤ
  pub gold_max_drawdown : ℤ
  pub min_time_between_trades_minutes : ℤ

pub data GoldEdgeReply : Type 0 where
  losses_in_a_row : ℤ → ℤ → GoldEdgeReply
  trades_today : ℤ → ℤ → GoldEdgeReply
  gold_drawdown : ℤ → ℤ → GoldEdgeReply
  too_soon : ℤ → ℤ → GoldEdgeReply
  all_checks_passed : GoldEdgeReply

-- the field `triggered`
abbrev pub triggered : GoldEdgeReply → Bool
triggered all_checks_passed = false
triggered _ = true

unfoldable pub check_gold_edge : GoldEdgeRiskParameter → ℤ → ℤ → ℤ → ℤ → GoldEdgeReply
check_gold_edge p losses trades drawdown_pct minutes =
    if leb_ℤ p.max_consecutive_losses losses
    then losses_in_a_row losses p.max_consecutive_losses
    else if leb_ℤ p.max_daily_gold_edge_trades trades
    then trades_today trades p.max_daily_gold_edge_trades
    else if leb_ℤ p.gold_max_drawdown drawdown_pct
    then gold_drawdown drawdown_pct p.gold_max_drawdown
    else if ltb_ℤ minutes (pos 1000 *ℤ p.min_time_between_trades_minutes)
    then too_soon minutes p.min_time_between_trades_minutes
    else all_checks_passed

-- The breaker lets a trade pass exactly if the losses in a row, the day's trades and the drawdown are
-- all below their limits and the last trade is at least the minimum time ago; and what passes at
-- some losses, trades, drawdown and time still passes with fewer of the first three and more time.
pub check_gold_edge-passes :
    (p : GoldEdgeRiskParameter) (losses trades dd minutes : ℤ)
    → let limit = pos 1000 *ℤ p.min_time_between_trades_minutes in
      let reply = check_gold_edge p losses trades dd minutes in
      (triggered reply ≡ false
        → (losses <ℤ p.max_consecutive_losses)
          × (trades <ℤ p.max_daily_gold_edge_trades)
          × (dd <ℤ p.gold_max_drawdown)
          × (limit ≤ℤ minutes))
      × ((losses <ℤ p.max_consecutive_losses)
          → (trades <ℤ p.max_daily_gold_edge_trades)
          → (dd <ℤ p.gold_max_drawdown)
          → (limit ≤ℤ minutes)
          → triggered reply ≡ false)
      × ((losses' trades' dd' minutes' : ℤ)
          → losses' ≤ℤ losses
          → trades' ≤ℤ trades
          → dd' ≤ℤ dd
          → minutes ≤ℤ minutes'
          → triggered reply ≡ false
          → triggered (check_gold_edge p losses' trades' dd' minutes') ≡ false)
unfolding check_gold_edge
check_gold_edge-passes p losses trades dd minutes =
    (λ h. ground arith, λ a b c d. ground arith, λ l t w m a b c d h. ground arith)
