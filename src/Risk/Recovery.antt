-- ===== src/Risk/Recovery.antt =====
-- The tiers of drawdown recovery of `DrawdownMonitor`, in backend/risk_management/models.py: two
-- tables of the same rules, `DRAWDOWN_TIERS` and `get_recovery_protocol`. Sizes are in hundredths.
use dutchkem_trading_ai.Common.Int.{ltb_ℤ, pos, ℤ, leb_ℤ}
use dutchkem_trading_ai.Common.{
  none, some, str_eq, ◌==◌, not, ltb, Option, leb, if◌then◌else◌, ℕ, String, List, [], ◌∷◌, Bool,
  true, false, ◌&&◌,
}
use dutchkem_trading_ai.Risk.Monitor.{
  low, medium, recovery_max_trades, recovery_halt, recovery_gold_edge_only, high, ◌then_check◌,
  alert, trip, stamp, critical, Severity, Check, DrawdownMonitor, RiskParameter, Alert,
}

pub record Tier : Type 0 where
  pub tier : ℕ
  pub size_factor : ℕ
  pub most_trades : ℕ
  pub allow_auto : Bool

-- (lower, upper, size_factor, max_trades, allow_auto), the bounds in hundredths of a percent
pub record TierRow : Type 0 where
  pub lower : ℕ
  pub upper : ℕ
  pub row : Tier

abbrev tier_row : ℕ → ℕ → ℕ → ℕ → ℕ → Bool → TierRow
tier_row l u n f t a = record {
  lower = l;
  upper = u;
  row = record { tier = n; size_factor = f; most_trades = t; allow_auto = a };
}

abbrev pub drawdown_tiers : List TierRow
drawdown_tiers =
    tier_row 500 1000 1 50 5 true
    ∷ tier_row 1000 1500 2 25 3 true
    ∷ tier_row 1500 2000 3 0 0 false
    ∷ tier_row 2000 99900 4 0 0 false
    ∷ []

abbrev pub normal_tier : Tier
normal_tier = record { tier = 0; size_factor = 100; most_trades = 999; allow_auto = true }

unfoldable pub find_tier : ℤ → List TierRow → Tier
find_tier dd [] = normal_tier
find_tier dd (t ∷ l) =
    if leb_ℤ (pos t.lower) dd && ltb_ℤ dd (pos t.upper) then t.row else find_tier dd l

unfoldable pub get_drawdown_recovery_tier : DrawdownMonitor → Tier
get_drawdown_recovery_tier m = find_tier m.drawdown_percent drawdown_tiers

pub data ProtocolTier : Type 0 where
  full_stop : ProtocolTier
  manual_review : ProtocolTier
  high_drawdown : ProtocolTier
  elevated : ProtocolTier
  normal : ProtocolTier

pub record Protocol : Type 0 where
  pub protocol_tier : ProtocolTier
  pub protocol_severity : Severity
  pub position_size_multiplier : ℕ
  pub max_daily_trades : Option ℕ
  pub allow_gold_edge : Bool
  pub require_manual_review : Bool

abbrev protocol : ProtocolTier → Severity → ℕ → Option ℕ → Bool → Bool → Protocol
protocol t s f n g r = record {
  protocol_tier = t;
  protocol_severity = s;
  position_size_multiplier = f;
  max_daily_trades = n;
  allow_gold_edge = g;
  require_manual_review = r;
}

abbrev at_least : ℕ → DrawdownMonitor → Bool
at_least n m = leb_ℤ (pos n) m.drawdown_percent

unfoldable pub get_recovery_protocol : DrawdownMonitor → Protocol
get_recovery_protocol m =
    if at_least 2000 m
    then protocol full_stop critical 0 (some 0) false true
    else if at_least 1500 m
    then protocol manual_review critical 0 (some 0) false true
    else if at_least 1000 m
    then protocol high_drawdown high 25 (some 3) true false
    else if at_least 500 m
    then protocol elevated medium 50 (some 5) true false
    else protocol normal low 100 none true false

-- (multiplier, max_trades, allow_gold)
unfoldable pub apply_recovery_protocol : RiskParameter → DrawdownMonitor → ℕ × ℤ × Bool
apply_recovery_protocol p m =
    let r = get_recovery_protocol m in
    (
      r.position_size_multiplier,
      elim r.max_daily_trades [ none ↦ p.max_daily_trades | some n ↦ pos n ],
      r.allow_gold_edge,
    )

unfoldable pub limit_trades : Tier → Check
limit_trades t m =
    if (ltb 0 t.most_trades && leb t.most_trades m.daily_trades_count)
      && not m.is_max_trades_triggered
    then (
      trip (record m { is_max_trades_triggered = true }),
      alert recovery_max_trades high
            (pos t.tier ∷ pos t.most_trades ∷ pos m.daily_trades_count ∷ [])
          ∷ [],
    )
    else (m, [])

unfoldable pub halt_automated : Tier → Check
halt_automated t m =
    if not t.allow_auto
    then (trip m, alert recovery_halt critical (pos t.tier ∷ m.drawdown_percent ∷ []) ∷ [])
    else (m, [])

unfoldable pub restrict_to_gold_edge : Tier → String → Check
restrict_to_gold_edge t strategy m =
    if leb 2 t.tier && not (str_eq strategy "gold_edge")
    then (trip m, alert recovery_gold_edge_only high (pos t.tier ∷ m.drawdown_percent ∷ []) ∷ [])
    else (m, [])

unfoldable pub apply_drawdown_recovery : String → ℕ → DrawdownMonitor → List Alert × DrawdownMonitor
apply_drawdown_recovery strategy now m =
    let t = get_drawdown_recovery_tier m in
    if t.tier == 0
    then ([], m)
    else stamp now
        ((limit_trades t then_check halt_automated t then_check restrict_to_gold_edge t strategy) m)
