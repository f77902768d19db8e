-- ===== src/Trading/Validation/Screening.antt =====
-- What `validate_order` of backend/trading/services.py lets through.
use dutchkem_trading_ai.Common.Int.{◌<ℤ◌, pos, pos_part}
use dutchkem_trading_ai.Trading.Validation.{
  first_refusal, all_ok, correlate, monitor_refusal, Checks, portfolio_exposure_too_high,
  position_size_exceeds, below_minimum_lot, same_side, verdict, exposure, Refusal,
  directional_refusal, price_of, pos_part, early_refusal, OpenPosition, total_exposure, added,
  validate_order, size_refusal, side_exposure, one_sided, new_exposure, NewOrder, Account,
}
use dutchkem_trading_ai.Trading.Books.{sell, buy, Side}
use dutchkem_trading_ai.Risk.Monitor.{DrawdownMonitor, RiskParameter}
use dutchkem_trading_ai.Common.{
  inr, inl, ◌≢◌, Option-cases, ◌&&◌, true, ltb, if◌then◌else◌, Bool, refl, zero, [], ◌∷◌, suc,
  arith, ◌<◌, ◌+◌, ◌*◌, some, none, false, List, ◌≤◌, ◌≡◌, ℕ, Option,
}
use native.Mathlib.Nat.{mul-pos}

-- the exposure on a side once the order is open
abbrev pub side_after : Side → Account → NewOrder → ℕ
side_after s a o = side_exposure s a.open_positions + added s o

split_side :
    (s : Side) (n : ℕ)
    → (if same_side buy s then n else 0) + (if same_side sell s then n else 0) ≡ n
split_side buy n = omega arith
split_side sell n = omega arith

sides-total :
    (ps : List OpenPosition) → side_exposure buy ps + side_exposure sell ps ≡ total_exposure ps
unfolding side_exposure total_exposure
sides-total [] = refl
sides-total (p ∷ ps) = omega (arith, split_side p.side (exposure p), sides-total ps)

added-total : (o : NewOrder) → added buy o + added sell o ≡ new_exposure o
added-total o = split_side o.position_type (new_exposure o)

after-total :
    (a : Account) (o : NewOrder)
    → side_after buy a o + side_after sell a o ≡ total_exposure a.open_positions + new_exposure o
after-total a o = omega (arith, sides-total a.open_positions, added-total o)

price-positive : (q : Option ℕ) → 0 < price_of q
price-positive none = omega arith
price-positive (some zero) = omega arith
price-positive (some (suc n)) = omega arith

new_exposure-positive : (o : NewOrder) → 10000 ≤ o.size → 0 < new_exposure o
unfolding new_exposure
new_exposure-positive o h = mul-pos (omega (arith, h)) (price-positive o.quoted)

pub record Sized (p : RiskParameter) (a : Account) (o : NewOrder) : Type 0 where
  pub lot : 10000 ≤ o.size
  pub risk : o.size * 100000 ≤ a.equity * pos_part p.max_position_size * 20
  pub half : (total_exposure a.open_positions + new_exposure o) * 2 ≤ a.equity * 10000000000

refused_none : {r : Refusal} → some r ≡ none → ⊥
refused_none e = cc

ltb-false : (m n : ℕ) → ltb m n ≡ false → n ≤ m
ltb-false m n h = ground arith

half_kept :
    (e r size total : ℕ)
    → 10000 ≤ size
    → size * 100000 ≤ e * r * 20
    → (ltb 0 e && ltb (e * 10000000000) (total * 2)) ≡ false
    → total * 2 ≤ e * 10000000000
half_kept zero r size total lot risk h = absurd (omega (arith, lot, risk))
half_kept (suc e) r size total lot risk h = ground arith

screened :
    (b c d : Bool) (x y z : Refusal)
    → (if b then some x else if c then some y else if d then some z else none) ≡ none
    → (b ≡ false) × (c ≡ false) × (d ≡ false)
screened true c d x y z h = absurd (refused_none h)
screened false true d x y z h = absurd (refused_none h)
screened false false true x y z h = absurd (refused_none h)
screened false false false x y z h = (refl, refl, refl)

size_refusal-Sized :
    (p : RiskParameter) (a : Account) (o : NewOrder) → size_refusal p a o ≡ none → Sized p a o
unfolding size_refusal
size_refusal-Sized p a o h =
    let total = total_exposure a.open_positions + new_exposure o in
    let (lot, risk, half) =
      screened (ltb o.size 10000)
        (ltb (a.equity * pos_part p.max_position_size * 20) (o.size * 100000))
        (ltb 0 a.equity && ltb (a.equity * 10000000000) (total * 2)) below_minimum_lot
        position_size_exceeds portfolio_exposure_too_high h in
    let risk' = ltb-false (a.equity * pos_part p.max_position_size * 20) (o.size * 100000) risk in
    let lot' = ltb-false o.size 10000 lot in
    record {
      lot = lot';
      risk = risk';
      half = half_kept a.equity (pos_part p.max_position_size) o.size total lot' risk' half;
    }

balanced :
    (long short : ℕ)
    → one_sided long short ≡ false
    → (15 * (long + short) ≤ 100 * long) × (15 * (long + short) ≤ 100 * short)
unfolding one_sided
balanced long short h = ground arith

verdict-none : (d : Option Refusal) (c : Checks) → (verdict d c).0 ≡ none → d ≡ none
verdict-none none c h = refl
verdict-none (some r) c h = h

validate_order-passes :
    (a : Account) (o : NewOrder) (p : RiskParameter)
    → a.risk_params ≡ some p
    → (validate_order a o).0 ≡ none
    → (early_refusal p a o ≡ none) × (directional_refusal a o ≡ none)
unfolding validate_order
validate_order-passes a o p e h = elim (Option-cases (early_refusal p a o)) [
  | inr (r, f) ↦ absurd (refused_none (rw (e, validate_order, f) at h))
  | inl f ↦ (
    f,
    verdict-none (directional_refusal a o) (correlate p a o.symbol o.size 0 a.open_positions all_ok)
        (rw (e, validate_order, f) at h),
  )
]

-- No flag of the monitor is set, and the day's trades are fewer than the most that are allowed.
pub record IsClear (p : RiskParameter) (m : DrawdownMonitor) : Type 0 where
  pub not_tripped : m.is_circuit_breaker_triggered ≡ false
  pub no_daily_loss : m.is_daily_loss_triggered ≡ false
  pub no_drawdown : m.is_drawdown_triggered ≡ false
  pub no_max_trades : m.is_max_trades_triggered ≡ false
  pub no_daily_target : m.is_daily_target_triggered ≡ false
  pub trades_left : pos m.daily_trades_count <ℤ p.max_daily_trades

monitor_refusal-IsClear :
    (p : RiskParameter) (m : DrawdownMonitor) → monitor_refusal p m ≡ none → IsClear p m
unfolding monitor_refusal
monitor_refusal-IsClear p m h = record {
  not_tripped = ground arith;
  no_daily_loss = ground arith;
  no_drawdown = ground arith;
  no_max_trades = ground arith;
  no_daily_target = ground arith;
  trades_left = ground arith;
}

-- What an order that is let through shows.
pub record Screened (p : RiskParameter) (a : Account) (o : NewOrder) : Type 0 where
  pub sized : Sized p a o
  pub monitor_clear : (m : DrawdownMonitor) → a.monitor ≡ some m → IsClear p m
  pub long_side : 15 * (total_exposure a.open_positions + new_exposure o) ≤ 100 * side_after buy a o
  pub short_side :
      15 * (total_exposure a.open_positions + new_exposure o) ≤ 100 * side_after sell a o

first_refusal-none : (r q : Option Refusal) → first_refusal r q ≡ none → (r ≡ none) × (q ≡ none)
first_refusal-none none q h = (refl, h)
first_refusal-none (some r) q h = absurd (refused_none h)

directional_refusal-balanced :
    (a : Account) (o : NewOrder)
    → directional_refusal a o ≡ none
    → one_sided (side_after buy a o) (side_after sell a o) ≡ false
unfolding directional_refusal
directional_refusal-balanced a o h = ground arith

-- An order that is let through is of at least a hundredth of a lot, and within the risk per trade; none
-- of the five flags of the trader's monitor is set, the circuit breaker's included, and its trades of
-- the day are fewer than the limit; and after it the exposure is at most half of the equity, with at
-- least 15 percent of it on each side.
pub validate_order-Screened :
    (a : Account) (o : NewOrder) (p : RiskParameter)
    → a.risk_params ≡ some p
    → (validate_order a o).0 ≡ none
    → Screened p a o
validate_order-Screened a o p e h =
    let (early, directional) = validate_order-passes a o p e h in
    let (clear, size) =
      first_refusal-none (elim a.monitor [ none ↦ none | some m ↦ monitor_refusal p m ])
        (size_refusal p a o) early in
    let (long, short) =
      balanced (side_after buy a o) (side_after sell a o)
        (directional_refusal-balanced a o directional) in
    let total = after-total a o in
    record {
      sized = size_refusal-Sized p a o size;
      monitor_clear = λ m f. monitor_refusal-IsClear p m (rw f at clear);
      long_side = omega (arith, long, total);
      short_side = omega (arith, short, total);
    }

no_exposure :
    (ps : List OpenPosition)
    → ps ≡ []
    → (total_exposure ps ≡ 0) × (side_exposure buy ps ≡ 0) × (side_exposure sell ps ≡ 0)
unfolding total_exposure side_exposure
no_exposure ps e = rw e (refl, refl, refl)

alone :
    (s : Side) (n : ℕ)
    → 0 < n
    → 15 * n ≤ 100 * (if same_side buy s then n else 0)
    → 15 * n ≤ 100 * (if same_side sell s then n else 0)
    → ⊥
alone buy n z long short = omega (arith, z, short)
alone sell n z long short = omega (arith, z, long)

-- No order of a trader without open positions is let through, whatever the account is and whatever is
-- ordered: a first position is always wholly on one side.
pub validate_order-first_refused :
    (a : Account) (o : NewOrder) → a.open_positions ≡ [] → (validate_order a o).0 ≢ none
unfolding validate_order
validate_order-first_refused a o e h = elim (Option-cases a.risk_params) [
  | inl f ↦ refused_none (rw (f, validate_order) at h)
  | inr (p, f) ↦
      let s = validate_order-Screened a o p f h in
      let (t, b, c) = no_exposure a.open_positions e in
      alone o.position_type (new_exposure o) (new_exposure-positive o s.sized.lot)
        (omega (arith, s.long_side, t, b)) (omega (arith, s.short_side, t, c))
]
