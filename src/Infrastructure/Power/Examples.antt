-- ===== src/Infrastructure/Power/Examples.antt =====
-- Tests of the power monitor of backend/infrastructure/power_protection.py, and its theorems at
-- concrete inputs.
use dutchkem_trading_ai.Common.{ℕ, none, some, true, false, List, [], ◌∷◌, ◌≡◌, ◌+◌, refl, arith}
use dutchkem_trading_ai.Infrastructure.Power.{
  monitor_power, status_info, PowerSource, ups_battery, unknown_source, normal_power,
  PowerProtection, Reading, monitor_turns,
}
use dutchkem_trading_ai.Infrastructure.Power.Turns.{
  shutdowns, saves, outages, monitor_turns-shutdowns, monitor_turns-low,
}

abbrev monitor : PowerProtection
monitor = record {
  low_battery_threshold = 50;
  critical_battery_threshold = 20;
  status = normal_power;
  power_source = unknown_source;
  battery_level = 100;
  battery_runtime = 0;
  last_check = 0;
  outage_start = none;
  is_shutting_down = false;
  actions = [];
}

abbrev reading : PowerSource → ℕ → ℕ → Reading
reading source level now = record {
  system_battery = none;
  nut_ups = some (record { source = source; level = level; runtime = 60 });
  now = now;
}

-- an outage down to a critical battery
abbrev discharging : List Reading
discharging =
    reading ups_battery 80 30
    ∷ reading ups_battery 45 60
    ∷ reading ups_battery 20 90
    ∷ reading ups_battery 18 120
    ∷ []

monitor_turns-shutdowns_example :
    (shutdowns (monitor_turns discharging monitor).actions ≡ 0 + 1)
    × (saves (monitor_turns discharging monitor).actions ≡ 0 + 3)
    × ((monitor_turns discharging monitor).is_shutting_down ≡ true)
unfolding status_info
monitor_turns-shutdowns_example = monitor_turns-shutdowns discharging monitor (omega arith)

abbrev low_outage : List Reading
low_outage = reading ups_battery 45 30 ∷ reading ups_battery 44 60 ∷ []

monitor_turns-low_example :
    ((monitor_turns low_outage monitor).outage_start ≡ none)
    × (outages (monitor_turns low_outage monitor).actions ≡ [])
unfolding status_info
monitor_turns-low_example = monitor_turns-low low_outage monitor (omega arith, (omega arith, tt))

announced : outages (monitor_turns discharging monitor).actions ≡ "on_power_outage" ∷ []
unfolding monitor_turns monitor_power
announced = refl
