-- ===== src/Risk/Breakers.antt =====
-- When the circuit breaker of a trader is tripped, and when it stays tripped:
-- backend/risk_management/models.py, `DrawdownMonitor`.
use dutchkem_trading_ai.Common.Int.{pos, leb_ℤ, ℤ}
use dutchkem_trading_ai.Common.{
  some, if◌then◌else◌, arith, refl, not, ◌++◌, ℕ, String, List, [], ◌∷◌, Bool, true, false, ◌&&◌,
  ◌||◌, ◌≡◌,
}
use dutchkem_trading_ai.Risk.Monitor.{
  save_monitor, Check, check_consecutive_losses, check_max_trades, check_daily_target,
  check_drawdown, check_daily_loss, ◌then_check◌, stamp, check_circuit_breaker, uses_gold_edge,
  effective_max_dd, effective_daily_loss, DrawdownMonitor, RiskParameter, Alert,
}

abbrev pub is_empty : {A : Type 0} → List A → Bool
is_empty [] = true
is_empty (x ∷ l) = false

is_empty-append : {A : Type 0} (l r : List A) → is_empty (l ++ r) ≡ is_empty l && is_empty r
is_empty-append [] r = refl
is_empty-append (x ∷ l) r = refl

module _ (reaches : ℤ → ℤ → Bool) (p : RiskParameter) (strategy : String)
    (m : DrawdownMonitor) where
  abbrev pub loss_reached : Bool
  loss_reached = reaches m.daily_loss_percent (effective_daily_loss strategy p)

  abbrev pub drawdown_reached : Bool
  drawdown_reached = reaches m.drawdown_percent (effective_max_dd strategy p)

  -- the target of the limits, where no other has marked the day's target as reached
  abbrev pub target_reached : Bool
  target_reached = not m.is_daily_target_triggered && leb_ℤ p.daily_target_lock m.daily_pnl_percent

  abbrev pub trades_reached : Bool
  trades_reached = leb_ℤ p.max_daily_trades (pos m.daily_trades_count)

  abbrev pub losses_reached : Bool
  losses_reached =
      uses_gold_edge strategy p
      && leb_ℤ p.gold_edge_circuit_breaker_consecutive_losses (pos m.gold_edge_consecutive_losses)

  -- some limit is reached
  abbrev pub breaks : Bool
  breaks = loss_reached || drawdown_reached || target_reached || trades_reached || losses_reached

  abbrev after_loss : DrawdownMonitor
  after_loss = record m {
    is_daily_loss_triggered = m.is_daily_loss_triggered || loss_reached;
    is_circuit_breaker_triggered = m.is_circuit_breaker_triggered || loss_reached;
  }

  check_daily_loss-flags :
      ((check_daily_loss reaches strategy p m).0 ≡ after_loss)
      × (is_empty (check_daily_loss reaches strategy p m).1 ≡ not loss_reached)
  unfolding check_daily_loss
  check_daily_loss-flags = ground arith

  abbrev after_dd : DrawdownMonitor
  after_dd = record m {
    is_drawdown_triggered = m.is_drawdown_triggered || drawdown_reached;
    is_circuit_breaker_triggered = m.is_circuit_breaker_triggered || drawdown_reached;
  }

  check_drawdown-flags :
      ((check_drawdown reaches strategy p m).0 ≡ after_dd)
      × (is_empty (check_drawdown reaches strategy p m).1 ≡ not drawdown_reached)
  unfolding check_drawdown
  check_drawdown-flags = ground arith

  abbrev after_target : DrawdownMonitor
  after_target = record m {
    is_daily_target_triggered = m.is_daily_target_triggered || target_reached;
    is_circuit_breaker_triggered = m.is_circuit_breaker_triggered || target_reached;
  }

  check_daily_target-flags :
      ((check_daily_target p m).0 ≡ after_target)
      × (is_empty (check_daily_target p m).1 ≡ not (m.is_daily_target_triggered || target_reached))
  unfolding check_daily_target
  check_daily_target-flags = ground arith

  abbrev after_trades : DrawdownMonitor
  after_trades = record m {
    is_max_trades_triggered = m.is_max_trades_triggered || trades_reached;
    is_circuit_breaker_triggered = m.is_circuit_breaker_triggered || trades_reached;
  }

  check_max_trades-flags :
      ((check_max_trades p m).0 ≡ after_trades)
      × (is_empty (check_max_trades p m).1 ≡ not trades_reached)
  unfolding check_max_trades
  check_max_trades-flags = ground arith

  abbrev after_losses : DrawdownMonitor
  after_losses = record m {
    is_circuit_breaker_triggered = m.is_circuit_breaker_triggered || losses_reached;
  }

  check_consecutive_losses-flags :
      ((check_consecutive_losses strategy p m).0 ≡ after_losses)
      × (is_empty (check_consecutive_losses strategy p m).1 ≡ not losses_reached)
  unfolding check_consecutive_losses
  check_consecutive_losses-flags = ground arith

is_empty-all :
    (a b c d e : List Alert) (l w x t n g : Bool)
    → is_empty a ≡ not l
    → is_empty b ≡ not w
    → is_empty c ≡ not (x || t)
    → is_empty d ≡ not n
    → is_empty e ≡ not g
    → is_empty (a ++ b ++ c ++ d ++ e) ≡ not ((l || w || t || n || g) || x)
is_empty-all a b c d e l w x t n g h i j k o = ground (
  arith,
  is_empty-append (a ++ b ++ c ++ d) e,
  is_empty-append (a ++ b ++ c) d,
  is_empty-append (a ++ b) c,
  is_empty-append a b,
)

pub stamp-eq :
    (now : ℕ) (m : DrawdownMonitor) (l : List Alert)
    → stamp now (m, l) ≡ (
      l,
      save_monitor now
          (record m { triggered_at = if is_empty l then m.triggered_at else some m.updated_at }),
    )
unfolding stamp
stamp-eq now m [] = refl
stamp-eq now m (a ∷ l) = refl

module _ (reaches : ℤ → ℤ → Bool) (p : RiskParameter) (strategy : String) where
  abbrev all_checks : Check
  all_checks =
      check_daily_loss reaches strategy p
      then_check check_drawdown reaches strategy p
      then_check check_daily_target p
      then_check check_max_trades p
      then_check check_consecutive_losses strategy p

  abbrev after_all : DrawdownMonitor → DrawdownMonitor
  after_all m = after_losses reaches p strategy (
      after_trades reaches p strategy (
        after_target reaches p strategy
          (after_dd reaches p strategy (after_loss reaches p strategy m))))

  all_checks-state : (m : DrawdownMonitor) → (all_checks m).0 ≡ after_all m
  unfolding ◌then_check◌
  all_checks-state m =
      let m1 = after_loss reaches p strategy m in
      let m2 = after_dd reaches p strategy m1 in
      let m3 = after_target reaches p strategy m2 in
      let m4 = after_trades reaches p strategy m3 in
      rw (check_daily_loss-flags reaches p strategy m).0 (
        rw (check_drawdown-flags reaches p strategy m1).0 (
          rw (check_daily_target-flags reaches p strategy m2).0 (
            rw (check_max_trades-flags reaches p strategy m3).0
              (check_consecutive_losses-flags reaches p strategy m4).0)))

  all_checks-alerts :
      (m : DrawdownMonitor)
      → is_empty (all_checks m).1 ≡ not (breaks reaches p strategy m || m.is_daily_target_triggered)
  unfolding ◌then_check◌
  all_checks-alerts m =
      let m1 = after_loss reaches p strategy m in
      let m2 = after_dd reaches p strategy m1 in
      let m3 = after_target reaches p strategy m2 in
      let m4 = after_trades reaches p strategy m3 in
      rw (check_daily_loss-flags reaches p strategy m).0 (
        rw (check_drawdown-flags reaches p strategy m1).0 (
          rw (check_daily_target-flags reaches p strategy m2).0 (
            rw (check_max_trades-flags reaches p strategy m3).0 (
              is_empty-all (check_daily_loss reaches strategy p m).1
                (check_drawdown reaches strategy p m1).1 (check_daily_target p m2).1
                (check_max_trades p m3).1 (check_consecutive_losses strategy p m4).1
                (loss_reached reaches p strategy m) (drawdown_reached reaches p strategy m)
                m.is_daily_target_triggered (target_reached reaches p strategy m)
                (trades_reached reaches p strategy m) (losses_reached reaches p strategy m)
                (check_daily_loss-flags reaches p strategy m).1
                (check_drawdown-flags reaches p strategy m1).1
                (check_daily_target-flags reaches p strategy m2).1
                (check_max_trades-flags reaches p strategy m3).1
                (check_consecutive_losses-flags reaches p strategy m4).1))))

  -- After a check the breaker is tripped exactly if it was before or some limit is reached: the
  -- daily loss, the drawdown, the day's target unless it was marked before, the number of trades,
  -- or the losses in a row under Gold Edge. Each flag of its own is set exactly for its limit, and
  -- there is no alert exactly if no limit is reached and the target was not marked before.
  pub check_circuit_breaker-trips :
      (now : ℕ) (m : DrawdownMonitor)
      → let (alerts, m') = check_circuit_breaker reaches p strategy now m in
        (m'.is_circuit_breaker_triggered
          ≡ m.is_circuit_breaker_triggered || breaks reaches p strategy m)
        × (m'.is_daily_loss_triggered
            ≡ m.is_daily_loss_triggered || loss_reached reaches p strategy m)
        × (m'.is_drawdown_triggered
            ≡ m.is_drawdown_triggered || drawdown_reached reaches p strategy m)
        × (m'.is_daily_target_triggered
            ≡ m.is_daily_target_triggered || target_reached reaches p strategy m)
        × (m'.is_max_trades_triggered
            ≡ m.is_max_trades_triggered || trades_reached reaches p strategy m)
        × (is_empty alerts ≡ not (breaks reaches p strategy m || m.is_daily_target_triggered))
  unfolding check_circuit_breaker
  check_circuit_breaker-trips now m =
      let e = all_checks-state m in
      let s = stamp-eq now (all_checks m).0 (all_checks m).1 in
      (
        rw s (rw e (ground arith)),
        rw s (rw e refl),
        rw s (rw e refl),
        rw s (rw e refl),
        rw s (rw e refl),
        rw s (all_checks-alerts m),
      )

  -- A check counts no trade and no profit.
  pub check_circuit_breaker-counts :
      (now : ℕ) (m : DrawdownMonitor)
      → let m' = (check_circuit_breaker reaches p strategy now m).1 in
        (m'.daily_trades_count ≡ m.daily_trades_count) × (m'.daily_pnl ≡ m.daily_pnl)
  unfolding check_circuit_breaker
  check_circuit_breaker-counts now m =
      let e = all_checks-state m in
      let s = stamp-eq now (all_checks m).0 (all_checks m).1 in (rw s (rw e refl), rw s (rw e refl))
