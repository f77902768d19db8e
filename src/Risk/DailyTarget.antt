-- ===== src/Risk/DailyTarget.antt =====
-- The day's target: `DailyTargetLock` of backend/risk_management/daily_target.py, what it reads and
-- writes for one trader. The target of the profit manager, where there is one, and the percentage of
-- a profit are parameters; percentages are in hundredths of a percent, amounts in cents.
use dutchkem_trading_ai.Risk.Numeric.{is_positive, cents_of}
use dutchkem_trading_ai.Common.Int.{◌-ℤ◌, negsuc, pos, leb_ℤ, ℤ}
use dutchkem_trading_ai.Common.{
  str_eq, if◌then◌else◌, String, Option, none, some, Bool, false, ◌&&◌, not, ◌||◌,
}
use dutchkem_trading_ai.Risk.Monitor.{DrawdownMonitor}

pub data Profile : Type 0 where
  conservative : Profile
  moderate : Profile
  aggressive : Profile

-- `TARGET_PROFILES`
abbrev pub profile_target : Profile → ℤ
profile_target conservative = pos 80
profile_target moderate = pos 145
profile_target aggressive = pos 220

unfoldable pub get_profile_for_risk_level : String → Profile
get_profile_for_risk_level s =
    if str_eq s "low" || str_eq s "conservative"
    then conservative
    else if str_eq s "high" || str_eq s "aggressive"
    then aggressive
    else moderate

pub record DailyStatus : Type 0 where
  pub effective_target : ℤ
  pub starting_equity : ℤ
  pub daily_pnl_pct : ℤ
  pub is_target_reached : Bool
  pub is_loss_limit : Bool
  pub is_trading_allowed : Bool

-- the first of the day's record, the monitor and the user's equity
abbrev pub starting_equity_of : Option ℤ → Option DrawdownMonitor → ℤ → ℤ
starting_equity_of (some s) m equity = s
starting_equity_of none (some m) equity = cents_of m.current_equity
starting_equity_of none none equity = equity

module _ (percent : ℤ → ℤ → ℤ) where
  abbrev pub pnl_pct : ℤ → ℤ → ℤ
  pnl_pct starting equity =
      if is_positive starting then percent (equity -ℤ starting) starting else pos 0

  -- The status, and the monitor after its flag is written.
  unfoldable pub check_daily_status :
      Profile
      → Option ℤ
      → Option ℤ
      → Option DrawdownMonitor
      → ℤ
      → DailyStatus × Option DrawdownMonitor
  check_daily_status profile v65_target performance monitor equity =
      let starting = starting_equity_of performance monitor equity in
      let pct = pnl_pct starting equity in
      let target : ℤ = elim v65_target [ none ↦ profile_target profile | some t ↦ t ] in
      let reached = leb_ℤ target pct in
      let lost = leb_ℤ pct (negsuc 199) in
      (
        record {
          effective_target = target;
          starting_equity = starting;
          daily_pnl_pct = pct;
          is_target_reached = reached;
          is_loss_limit = lost;
          is_trading_allowed = not reached && not lost;
        },
        elim monitor [
          | none ↦ none
          | some m ↦ some (record m { is_daily_target_triggered = reached })
        ],
      )

-- `override_halt`, as far as the monitor
unfoldable pub override_halt : Option DrawdownMonitor → Option DrawdownMonitor
override_halt none = none
override_halt (some m) =
    some (record m { is_daily_target_triggered = false; is_circuit_breaker_triggered = false })
