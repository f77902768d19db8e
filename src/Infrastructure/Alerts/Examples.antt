-- ===== src/Infrastructure/Alerts/Examples.antt =====
-- Runs of the alerts of backend/infrastructure/alert_system.py.
use dutchkem_trading_ai.Common.Dict.{insert, lookup}
use dutchkem_trading_ai.Infrastructure.Alerts.Throttling.{goes_out, send_alert-send_alerts}
use dutchkem_trading_ai.Infrastructure.Alerts.{
  is_rate_limited, should_send, lookup, alert_critical, Alert, alert_warning, alert_info,
  AlertLevel, send_alerts, send_alert, AlertSystem, AlertChannel,
}
use dutchkem_trading_ai.Common.{arith, ◌∷◌, refl, none, ◌≡◌, false, true, [], Bool, ℕ}

abbrev quiet_system : AlertSystem
quiet_system = record {
  email_enabled = true;
  telegram_enabled = false;
  slack_enabled = true;
  webhook_enabled = false;
  min_level = alert_warning;
  last_alerts = [];
  rows = [];
}

abbrev power_alert : ℕ → AlertLevel → (AlertChannel → Bool) → Alert
power_alert at l sent = record {
  time = at;
  level = l;
  subject = "Power";
  channels = [];
  sent = sent;
  table_fails = none;
}

unsent : AlertChannel → Bool
unsent c = false

below_the_minimum : (send_alert (power_alert 5 alert_info unsent) quiet_system).0 ≡ []
unfolding send_alert
below_the_minimum = refl

both_fail :
    (send_alert (power_alert 5 alert_warning unsent) quiet_system).0
    ≡ ("email", false) ∷ ("slack", false) ∷ []
unfolding send_alert lookup insert unsent
both_fail = refl

send_alert-send_alerts_example :
    let b = send_alerts [] (send_alert (power_alert 5 alert_warning unsent) quiet_system).1 in
    ((send_alert (power_alert 64 alert_critical unsent) b).0 ≡ [])
    × ((send_alert (power_alert 64 alert_critical unsent) b).1 ≡ b)
unfolding goes_out should_send is_rate_limited lookup
send_alert-send_alerts_example =
    send_alert-send_alerts (power_alert 5 alert_warning unsent) []
      (power_alert 64 alert_critical unsent) quiet_system refl refl (omega arith)
