-- ===== src/Risk/Tiers.antt =====
-- The two tables of the drawdown tiers agree, and the tiers from 10 and 15 percent on stop trading:
-- backend/risk_management/models.py, `DrawdownMonitor`.
use dutchkem_trading_ai.Risk.Breakers.{stamp-eq}
use dutchkem_trading_ai.Common.Int.{◌≤ℤ◌, pos, ◌<ℤ◌}
use dutchkem_trading_ai.Risk.Recovery.{
  restrict_to_gold_edge, halt_automated, limit_trades, Tier, find_tier, get_recovery_protocol,
  get_drawdown_recovery_tier, apply_drawdown_recovery,
}
use dutchkem_trading_ai.Common.{
  ltb, ◌∙◌, inr, inl, refl, leb, Bool-cases, arith, not, some, none, ◌==◌, str_eq, if◌then◌else◌, ℕ,
  String, [], true, false, ◌&&◌, ◌||◌, ◌≡◌,
}
use dutchkem_trading_ai.Risk.Monitor.{◌then_check◌, Check, DrawdownMonitor}

-- For a drawdown below 999 percent the table of tiers and the recovery protocol give the same size
-- factor; where the protocol sets a number of trades it is the table's, and the table allows
-- automated trading exactly where the protocol asks for no manual review.
pub get_drawdown_recovery_tier-get_recovery_protocol :
    (m : DrawdownMonitor)
    → m.drawdown_percent <ℤ pos 99900
    → let t = get_drawdown_recovery_tier m in
      let r = get_recovery_protocol m in
      (t.size_factor ≡ r.position_size_multiplier)
      × (r.max_daily_trades ≡ (if t.tier == 0 then none else some t.most_trades))
      × (t.allow_auto ≡ not r.require_manual_review)
unfolding get_drawdown_recovery_tier get_recovery_protocol find_tier
get_drawdown_recovery_tier-get_recovery_protocol m h = ground arith

module _ (t : Tier) (strategy : String) where
  abbrev recovery_checks : Check
  recovery_checks =
      limit_trades t then_check halt_automated t then_check restrict_to_gold_edge t strategy

  recovery_checks-flag :
      (m : DrawdownMonitor)
      → (recovery_checks m).0.is_circuit_breaker_triggered
        ≡ m.is_circuit_breaker_triggered
          || (ltb 0 t.most_trades
              && leb t.most_trades m.daily_trades_count
              && not m.is_max_trades_triggered)
          || not t.allow_auto
          || (leb 2 t.tier && not (str_eq strategy "gold_edge"))
  unfolding ◌then_check◌ limit_trades halt_automated restrict_to_gold_edge
  recovery_checks-flag m = ground arith

apply_drawdown_recovery-flag :
    (strategy : String) (now : ℕ) (m : DrawdownMonitor)
    → let t = get_drawdown_recovery_tier m in
      ((t.tier == 0) ≡ false)
      → (apply_drawdown_recovery strategy now m).1.is_circuit_breaker_triggered
        ≡ (recovery_checks (get_drawdown_recovery_tier m) strategy m).0.is_circuit_breaker_triggered
unfolding apply_drawdown_recovery
apply_drawdown_recovery-flag strategy now m h =
    let t = get_drawdown_recovery_tier m in
    rw h (rw (stamp-eq now (recovery_checks t strategy m).0 (recovery_checks t strategy m).1) refl)

apply_drawdown_recovery-none :
    (strategy : String) (now : ℕ) (m : DrawdownMonitor)
    → ((get_drawdown_recovery_tier m).tier == 0) ≡ true
    → apply_drawdown_recovery strategy now m ≡ ([], m)
unfolding apply_drawdown_recovery
apply_drawdown_recovery-none strategy now m h = rw h refl

-- the tier, by the drawdown
tier-bounds :
    (m : DrawdownMonitor)
    → m.drawdown_percent <ℤ pos 99900
    → let t = get_drawdown_recovery_tier m in
      (m.drawdown_percent <ℤ pos 500 → (t.tier == 0) ≡ true)
      × (pos 1000 ≤ℤ m.drawdown_percent → leb 2 t.tier ≡ true)
      × (pos 1500 ≤ℤ m.drawdown_percent → t.allow_auto ≡ false)
      × ((t.tier == 0) ≡ true → t.allow_auto ≡ true)
unfolding get_drawdown_recovery_tier find_tier
tier-bounds m h = ground arith

-- The recovery rules never lift a breaker; from 15 percent on they trip it for every strategy, and
-- from 10 percent on for every strategy but Gold Edge. Below 5 percent they do nothing.
pub apply_drawdown_recovery-halts :
    (strategy : String) (now : ℕ) (m : DrawdownMonitor)
    → m.drawdown_percent <ℤ pos 99900
    → let (alerts, m') = apply_drawdown_recovery strategy now m in
      (m.is_circuit_breaker_triggered ≡ true → m'.is_circuit_breaker_triggered ≡ true)
      × (pos 1500 ≤ℤ m.drawdown_percent → m'.is_circuit_breaker_triggered ≡ true)
      × (pos 1000 ≤ℤ m.drawdown_percent
          → str_eq strategy "gold_edge" ≡ false
          → m'.is_circuit_breaker_triggered ≡ true)
      × (m.drawdown_percent <ℤ pos 500 → (alerts ≡ []) × (m' ≡ m))
apply_drawdown_recovery-halts strategy now m h =
    let t = get_drawdown_recovery_tier m in
    let (none_below, two_from, halt_from, zero_auto) = tier-bounds m h in
    elim (Bool-cases (t.tier == 0)) [
      | inl z ↦
          let e = apply_drawdown_recovery-none strategy now m z in
          (
            λ b. rw e b,
            λ b. ground (arith, halt_from b, zero_auto z),
            λ b c. ground (arith, two_from b),
            λ b. (rw e refl, rw e refl),
          )
      | inr z ↦
          let e = apply_drawdown_recovery-flag strategy now m z in
          let f = recovery_checks-flag t strategy m in
          (
            λ b. e ∙ f ∙ ground arith,
            λ b. e ∙ f ∙ ground (arith, halt_from b),
            λ b c. e ∙ f ∙ ground (arith, two_from b),
            λ b. ground (arith, none_below b),
          )
    ]
