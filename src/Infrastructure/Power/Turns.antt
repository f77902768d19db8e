-- ===== src/Infrastructure/Power/Turns.antt =====
-- What the turns of the power monitor of backend/infrastructure/power_protection.py amount to.
use mathlib.Core.List.{append-nil}
use dutchkem_trading_ai.Common.{
  sym, All, ◌||◌, str_eq, String, ◌∙◌, subst, inr, inl, refl, Bool-cases, ◌≤◌, suc, ℕ, Bool, true,
  false, List, [], ◌∷◌, ◌++◌, leb, if◌then◌else◌, ◌≡◌, ◌+◌, arith,
}
use dutchkem_trading_ai.Infrastructure.Power.{
  is_on_battery, check_power_status, BatteryInfo, monitor_turns, monitor_power, classify,
  normal_power, low_battery, critical_battery, power_outage, PowerAction, emergency_saved, fired,
  logged_event, shutdown_thread, PowerProtection, Reading, status_info, respond,
}

-- how often a shutdown thread was started
abbrev pub shutdowns : List PowerAction → ℕ
shutdowns [] = 0
shutdowns (shutdown_thread ∷ xs) = suc (shutdowns xs)
shutdowns (emergency_saved ∷ xs) = shutdowns xs
shutdowns (fired _ _ ∷ xs) = shutdowns xs
shutdowns (logged_event _ _ ∷ xs) = shutdowns xs

abbrev pub saves : List PowerAction → ℕ
saves [] = 0
saves (emergency_saved ∷ xs) = suc (saves xs)
saves (shutdown_thread ∷ xs) = saves xs
saves (fired _ _ ∷ xs) = saves xs
saves (logged_event _ _ ∷ xs) = saves xs

-- whether, and how often, a reading has a level at or below a threshold
abbrev pub reached : ℕ → List Reading → Bool
reached c [] = false
reached c (r ∷ rs) = if leb (status_info r).level c then true else reached c rs

abbrev pub times_reached : ℕ → List Reading → ℕ
times_reached c [] = 0
times_reached c (r ∷ rs) = (if leb (status_info r).level c then 1 else 0) + times_reached c rs

shutdowns-append : (xs bs : List PowerAction) → shutdowns (xs ++ bs) ≡ shutdowns xs + shutdowns bs
shutdowns-append [] bs = omega arith
shutdowns-append (shutdown_thread ∷ xs) bs = omega (arith, shutdowns-append xs bs)
shutdowns-append (emergency_saved ∷ xs) bs = omega (arith, shutdowns-append xs bs)
shutdowns-append (fired _ _ ∷ xs) bs = omega (arith, shutdowns-append xs bs)
shutdowns-append (logged_event _ _ ∷ xs) bs = omega (arith, shutdowns-append xs bs)

saves-append : (xs bs : List PowerAction) → saves (xs ++ bs) ≡ saves xs + saves bs
saves-append [] bs = omega arith
saves-append (shutdown_thread ∷ xs) bs = omega (arith, saves-append xs bs)
saves-append (emergency_saved ∷ xs) bs = omega (arith, saves-append xs bs)
saves-append (fired _ _ ∷ xs) bs = omega (arith, saves-append xs bs)
saves-append (logged_event _ _ ∷ xs) bs = omega (arith, saves-append xs bs)

-- What one turn changes: the counts, the flag and the thresholds.
record TurnFacts (critical low : Bool) (p p' : PowerProtection) : Type 0 where
  low_same : p'.low_battery_threshold ≡ p.low_battery_threshold
  critical_same : p'.critical_battery_threshold ≡ p.critical_battery_threshold
  flag : p'.is_shutting_down ≡ (if critical then true else p.is_shutting_down)
  started :
      shutdowns p'.actions
      ≡ shutdowns p.actions + (if critical then if p.is_shutting_down then 0 else 1 else 0)
  saved : saves p'.actions ≡ saves p.actions + (if low then 1 else 0)

respond_critical :
    (now : ℕ) (p : PowerProtection) → TurnFacts true true p (respond critical_battery now p)
unfolding respond
respond_critical now p = grind (arith, shutdowns-append, saves-append)

respond_low : (now : ℕ) (p : PowerProtection) → TurnFacts false true p (respond low_battery now p)
unfolding respond
respond_low now p = grind (arith, shutdowns-append, saves-append)

respond_outage :
    (now : ℕ) (p : PowerProtection) → TurnFacts false false p (respond power_outage now p)
unfolding respond
respond_outage now p = grind (arith, shutdowns-append, saves-append)

respond_normal :
    (now : ℕ) (p : PowerProtection) → TurnFacts false false p (respond normal_power now p)
unfolding respond
respond_normal now p = grind (arith, shutdowns-append, saves-append)

classify-respond :
    (i : BatteryInfo) (now : ℕ) (p : PowerProtection) (low critical : ℕ)
    → critical ≤ low
    → TurnFacts (leb i.level critical) (leb i.level low) p (respond (classify low critical i) now p)
unfolding classify
classify-respond i now p low critical h = elim (Bool-cases (leb i.level critical)) [
  | inl c ↦ let l : leb i.level low ≡ true = ground arith in rw (c, l) (respond_critical now p)
  | inr c ↦ elim (Bool-cases (leb i.level low)) [
    | inl l ↦ rw (c, l) (respond_low now p)
    | inr l ↦ elim (Bool-cases (is_on_battery i.source)) [
      | inl o ↦ rw (c, l, o) (respond_outage now p)
      | inr o ↦ rw (c, l, o) (respond_normal now p)
    ]
  ]
]

monitor_power-TurnFacts :
    (r : Reading) (p : PowerProtection)
    → p.critical_battery_threshold ≤ p.low_battery_threshold
    → TurnFacts
        (leb (status_info r).level p.critical_battery_threshold)
        (leb (status_info r).level p.low_battery_threshold)
        p
        (monitor_power r p)
unfolding monitor_power check_power_status
monitor_power-TurnFacts r p h =
    let f =
      classify-respond (status_info r) r.now (check_power_status r p) p.low_battery_threshold
        p.critical_battery_threshold h in
    record {
      low_same = f.low_same;
      critical_same = f.critical_same;
      flag = f.flag;
      started = f.started;
      saved = f.saved;
    }

abbrev pub TurnsFacts : ℕ → ℕ → List Reading → PowerProtection → PowerProtection → Type 0
TurnsFacts critical low rs p p' =
    (shutdowns p'.actions
      ≡ shutdowns p.actions
        + (if reached critical rs then if p.is_shutting_down then 0 else 1 else 0))
    × (saves p'.actions ≡ saves p.actions + times_reached low rs)
    × (p'.is_shutting_down ≡ (if reached critical rs then true else p.is_shutting_down))

-- one start in a turn and those of later turns, where the flag forbids a second
once :
    (k later before between : Bool) (n m l : ℕ)
    → between ≡ (if k then true else before)
    → m ≡ n + (if k then if before then 0 else 1 else 0)
    → l ≡ m + (if later then if between then 0 else 1 else 0)
    → l ≡ n + (if if k then true else later then if before then 0 else 1 else 0)
once true later before between n m l f a b = ground arith
once false later before between n m l f a b = ground arith

flagged :
    (k later before between : Bool) {after : Bool}
    → between ≡ (if k then true else before)
    → after ≡ (if later then true else between)
    → after ≡ (if if k then true else later then true else before)
flagged true later before between f a = ground arith
flagged false later before between f a = ground arith

TurnsFacts-cons :
    (critical low : ℕ) (r : Reading) (rs : List Reading) (p q p' : PowerProtection)
    → TurnFacts (leb (status_info r).level critical) (leb (status_info r).level low) p q
    → TurnsFacts critical low rs q p'
    → TurnsFacts critical low (r ∷ rs) p p'
TurnsFacts-cons critical low r rs p q p' f (a, b, c) =
    let k = leb (status_info r).level critical in
    (
      once k (reached critical rs) p.is_shutting_down q.is_shutting_down (shutdowns p.actions)
          (shutdowns q.actions) (shutdowns p'.actions) f.flag f.started a,
      omega (arith, f.saved, b),
      flagged k (reached critical rs) p.is_shutting_down q.is_shutting_down f.flag c,
    )

turns :
    (critical low : ℕ) (rs : List Reading) (p : PowerProtection)
    → critical ≤ low
    → p.critical_battery_threshold ≡ critical
    → p.low_battery_threshold ≡ low
    → TurnsFacts critical low rs p (monitor_turns rs p)
unfolding monitor_turns
turns c l [] p h e f = (omega arith, omega arith, refl)
turns c l (r ∷ rs) p h e f =
    let t = monitor_power-TurnFacts r p (omega arith) in
    let q = monitor_power r p in
    TurnsFacts-cons c l r rs p q (monitor_turns rs q)
      (subst (λ n. TurnFacts (leb (status_info r).level n) (leb (status_info r).level l) p q) e
        (subst
          (λ n.
            TurnFacts (leb (status_info r).level p.critical_battery_threshold)
              (leb (status_info r).level n) p q)
          f t))
      (turns c l rs q h (t.critical_same ∙ e) (t.low_same ∙ f))

-- Over any number of turns, with a critical threshold at or below the low one, a shutdown is started
-- exactly once if some reading is at or below the critical threshold and none was started before, and
-- never otherwise; the state is saved once for each reading at or below the low threshold; and the
-- monitor is shutting down exactly if it was before or some reading was critical.
pub monitor_turns-shutdowns :
    (rs : List Reading) (p : PowerProtection)
    → p.critical_battery_threshold ≤ p.low_battery_threshold
    → let p' = monitor_turns rs p in
      (shutdowns p'.actions
        ≡ shutdowns p.actions
          + (if reached p.critical_battery_threshold rs
              then if p.is_shutting_down then 0 else 1
              else 0))
      × (saves p'.actions ≡ saves p.actions + times_reached p.low_battery_threshold rs)
      × (p'.is_shutting_down
          ≡ (if reached p.critical_battery_threshold rs then true else p.is_shutting_down))
monitor_turns-shutdowns rs p h =
    turns p.critical_battery_threshold p.low_battery_threshold rs p h refl refl

-- an outage or its end is announced
abbrev pub outages : List PowerAction → List String
outages [] = []
outages (fired event n ∷ xs) =
    if str_eq event "on_power_outage" || str_eq event "on_power_restored"
    then event ∷ outages xs
    else outages xs
outages (emergency_saved ∷ xs) = outages xs
outages (logged_event _ _ ∷ xs) = outages xs
outages (shutdown_thread ∷ xs) = outages xs

outages-append : (xs ys : List PowerAction) → outages (xs ++ ys) ≡ outages xs ++ outages ys
outages-append [] ys = refl
outages-append (fired e n ∷ xs) ys = ground (arith, outages-append xs ys)
outages-append (emergency_saved ∷ xs) ys = outages-append xs ys
outages-append (logged_event _ _ ∷ xs) ys = outages-append xs ys
outages-append (shutdown_thread ∷ xs) ys = outages-append xs ys

abbrev pub IsLow : ℕ → Reading → Type 0
IsLow low r = (status_info r).level ≤ low

record SameOutage (p p' : PowerProtection) : Type 0 where
  low_same : p'.low_battery_threshold ≡ p.low_battery_threshold
  start_same : p'.outage_start ≡ p.outage_start
  none_announced : outages p'.actions ≡ outages p.actions

respond_low-SameOutage : (now : ℕ) (p : PowerProtection) → SameOutage p (respond low_battery now p)
unfolding respond
respond_low-SameOutage now p = grind (arith, outages-append, append-nil)

respond_critical-SameOutage :
    (now : ℕ) (p : PowerProtection) → SameOutage p (respond critical_battery now p)
unfolding respond
respond_critical-SameOutage now p = grind (arith, outages-append, append-nil)

classify-SameOutage :
    (i : BatteryInfo) (now : ℕ) (p : PowerProtection) (low critical : ℕ)
    → leb i.level low ≡ true
    → SameOutage p (respond (classify low critical i) now p)
unfolding classify
classify-SameOutage i now p low critical l = elim (Bool-cases (leb i.level critical)) [
  | inl c ↦ rw c (respond_critical-SameOutage now p)
  | inr c ↦ rw (c, l) (respond_low-SameOutage now p)
]

monitor_power-SameOutage :
    (r : Reading) (p : PowerProtection)
    → IsLow p.low_battery_threshold r
    → SameOutage p (monitor_power r p)
unfolding monitor_power check_power_status
monitor_power-SameOutage r p h =
    let s =
      classify-SameOutage (status_info r) r.now (check_power_status r p) p.low_battery_threshold
        p.critical_battery_threshold (ground arith) in
    record { low_same = s.low_same; start_same = s.start_same; none_announced = s.none_announced }

low_turns :
    (rs : List Reading) (p : PowerProtection) (low : ℕ)
    → p.low_battery_threshold ≡ low
    → All (IsLow low) rs
    → SameOutage p (monitor_turns rs p)
unfolding monitor_turns
low_turns [] p low e h = record { low_same = refl; start_same = refl; none_announced = refl }
low_turns (r ∷ rs) p low e h =
    let s = monitor_power-SameOutage r p (subst (λ n. IsLow n r) (sym e) h.0) in
    let t = low_turns rs (monitor_power r p) low (s.low_same ∙ e) h.1 in
    record {
      low_same = t.low_same ∙ s.low_same;
      start_same = t.start_same ∙ s.start_same;
      none_announced = t.none_announced ∙ s.none_announced;
    }

-- While every reading is at or below the low threshold, whatever the power source is, no outage is
-- recorded and none is announced, nor the end of one: an outage that begins on a low battery is never
-- seen as one, and one that began before is never seen to end.
pub monitor_turns-low :
    (rs : List Reading) (p : PowerProtection)
    → All (IsLow p.low_battery_threshold) rs
    → ((monitor_turns rs p).outage_start ≡ p.outage_start)
      × (outages (monitor_turns rs p).actions ≡ outages p.actions)
monitor_turns-low rs p h =
    let s = low_turns rs p p.low_battery_threshold refl h in (s.start_same, s.none_announced)
