-- ===== src/Infrastructure/Power.antt =====
-- The power monitor, `PowerProtection` of backend/infrastructure/power_protection.py. What the
-- system's battery and the UPS report is an input of each turn: the output of `upower`, `WMIC` and
-- `upsc` is not parsed here. The lock is held for each access alone, and the monitor is the only
-- thread.
use dutchkem_trading_ai.Common.{
  ℕ, String, Option, none, some, Bool, true, false, List, [], ◌∷◌, ◌++◌, leb, if◌then◌else◌,
  is_some,
}
pub mod Turns
mod Examples

pub data PowerSource : Type 0 where
  ac_power ups_battery unknown_source : PowerSource

pub data PowerStatus : Type 0 where
  normal_power low_battery critical_battery power_outage : PowerStatus

-- What the monitor does to the outside, in order.
pub data PowerAction : Type 0 where
  emergency_saved : PowerAction
  fired : String → ℕ → PowerAction
  logged_event : String → ℕ → PowerAction
  shutdown_thread : PowerAction

pub record PowerProtection : Type 0 where
  pub low_battery_threshold : ℕ
  pub critical_battery_threshold : ℕ
  pub status : PowerStatus
  pub power_source : PowerSource
  pub battery_level : ℕ
  pub battery_runtime : ℕ
  pub last_check : ℕ
  pub outage_start : Option ℕ
  pub is_shutting_down : Bool
  pub actions : List PowerAction

-- the three entries that both sources of information give
pub record BatteryInfo : Type 0 where
  pub source : PowerSource
  pub level : ℕ
  pub runtime : ℕ

pub record Reading : Type 0 where
  pub system_battery : Option BatteryInfo
  pub nut_ups : Option BatteryInfo
  pub now : ℕ

-- `status_info` after the updates: the UPS overrides the battery, which overrides the defaults.
unfoldable pub status_info : Reading → BatteryInfo
status_info r = elim r.nut_ups [
  | some ups ↦ ups
  | none ↦ elim r.system_battery [
    | some battery ↦ battery
    | none ↦ record { source = unknown_source; level = 100; runtime = 0 }
  ]
]

unfoldable pub is_on_battery : PowerSource → Bool
is_on_battery ups_battery = true
is_on_battery _ = false

unfoldable pub classify : ℕ → ℕ → BatteryInfo → PowerStatus
unfolding is_on_battery
classify low critical i =
    if leb i.level critical
    then critical_battery
    else if leb i.level low
    then low_battery
    else if is_on_battery i.source
    then power_outage
    else normal_power

unfoldable pub check_power_status : Reading → PowerProtection → PowerProtection
unfolding status_info classify
check_power_status r p =
    let i = status_info r in
    record p {
      battery_level = i.level;
      battery_runtime = i.runtime;
      power_source = i.source;
      last_check = r.now;
      status = classify p.low_battery_threshold p.critical_battery_threshold i;
    }

unfoldable pub act : List PowerAction → PowerProtection → PowerProtection
act xs p = record p { actions = p.actions ++ xs }

unfoldable pub handle_power_outage : ℕ → PowerProtection → PowerProtection
unfolding act
handle_power_outage now p =
    act (fired "on_power_outage" p.battery_level ∷ logged_event "power_outage" p.battery_level ∷ [])
      (record p { outage_start = if is_some p.outage_start then p.outage_start else some now })

unfoldable pub handle_low_battery : PowerProtection → PowerProtection
unfolding act
handle_low_battery p =
    act
      (emergency_saved
        ∷ fired "on_low_battery" p.battery_level
        ∷ logged_event "low_battery" p.battery_level
        ∷ [])
      p

-- A second shutdown is not started.
unfoldable pub initiate_graceful_shutdown : PowerProtection → PowerProtection
unfolding act
initiate_graceful_shutdown p =
    if p.is_shutting_down
    then p
    else act (fired "on_shutdown" p.battery_level ∷ shutdown_thread ∷ [])
        (record p { is_shutting_down = true })

unfoldable pub handle_critical_battery : PowerProtection → PowerProtection
unfolding act initiate_graceful_shutdown
handle_critical_battery p = initiate_graceful_shutdown (
    act
      (emergency_saved
        ∷ fired "on_critical_battery" p.battery_level
        ∷ logged_event "critical_battery" p.battery_level
        ∷ [])
      p)

unfoldable pub handle_power_restored : PowerProtection → PowerProtection
unfolding act
handle_power_restored p =
    act
      (fired "on_power_restored" p.battery_level
        ∷ logged_event "power_restored" p.battery_level
        ∷ [])
      (record p { outage_start = none })

unfoldable pub respond : PowerStatus → ℕ → PowerProtection → PowerProtection
unfolding handle_power_outage handle_low_battery handle_critical_battery handle_power_restored
respond critical_battery now p = handle_critical_battery p
respond low_battery now p = handle_low_battery p
respond power_outage now p = handle_power_outage now p
respond normal_power now p = if is_some p.outage_start then handle_power_restored p else p

-- One round of `_monitor_loop`.
unfoldable pub monitor_power : Reading → PowerProtection → PowerProtection
unfolding check_power_status respond
monitor_power r p = let p' = check_power_status r p in respond p'.status r.now p'

unfoldable pub monitor_turns : List Reading → PowerProtection → PowerProtection
monitor_turns [] p = p
monitor_turns (r ∷ rs) p = monitor_turns rs (monitor_power r p)
