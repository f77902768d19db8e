-- ===== src/Infrastructure/Alerts.antt =====
-- The alerts of backend/infrastructure/alert_system.py: AlertSystem. Times are whole seconds. What the
-- mail server and the web hooks answer is an input of a call: every send catches its exceptions.
use dutchkem_trading_ai.Common.Dict.{lookup, insert, Dict}
use dutchkem_trading_ai.Common.{
  zero, suc, ◌+◌, none, ltb, some, not, ◌∷◌, ◌++◌, leb, if◌then◌else◌, false, [], ℕ, true, String,
  Option, List, Bool,
}
pub mod Throttling
mod Examples

pub data AlertLevel : Type 0 where
  alert_info alert_warning alert_error alert_critical : AlertLevel

unfoldable pub level_index : AlertLevel → ℕ
level_index alert_info = 0
level_index alert_warning = 1
level_index alert_error = 2
level_index alert_critical = 3

pub data AlertChannel : Type 0 where
  email telegram slack webhook : AlertChannel

unfoldable pub channel_name : AlertChannel → String
channel_name email = "email"
channel_name telegram = "telegram"
channel_name slack = "slack"
channel_name webhook = "webhook"

pub record AlertRow : Type 0 where
  pub row_level : AlertLevel
  pub row_channel : String
  pub row_subject : String
  pub row_sent : Bool

pub record AlertSystem : Type 0 where
  pub email_enabled : Bool
  pub telegram_enabled : Bool
  pub slack_enabled : Bool
  pub webhook_enabled : Bool
  pub min_level : AlertLevel
  pub last_alerts : Dict ℕ
  -- the table of AlertLog
  pub rows : List AlertRow

unfoldable pub set_minimum_level : AlertLevel → AlertSystem → AlertSystem
set_minimum_level l a = record a { min_level = l }

-- `configure_email` and its three kin
unfoldable pub configure : AlertChannel → AlertSystem → AlertSystem
configure email a = record a { email_enabled = true }
configure telegram a = record a { telegram_enabled = true }
configure slack a = record a { slack_enabled = true }
configure webhook a = record a { webhook_enabled = true }

unfoldable pub should_send : AlertLevel → AlertSystem → Bool
unfolding level_index
should_send l a = leb (level_index a.min_level) (level_index l)

abbrev within_minute : ℕ → Option ℕ → Bool
within_minute now none = false
within_minute now (some last) = ltb now (last + 60)

-- A time that is let through is kept at once, before anything is sent.
unfoldable pub is_rate_limited : ℕ → String → AlertSystem → Bool × AlertSystem
is_rate_limited now subject a =
    if within_minute now (lookup subject a.last_alerts)
    then (true, a)
    else (false, record a { last_alerts = insert subject now a.last_alerts })

abbrev only : Bool → AlertChannel → List AlertChannel → List AlertChannel
only true c cs = c ∷ cs
only false c cs = cs

unfoldable pub enabled_channels : AlertSystem → List AlertChannel
enabled_channels a = only a.email_enabled email (
    only a.telegram_enabled telegram
      (only a.slack_enabled slack (only a.webhook_enabled webhook [])))

-- `channels or self._get_enabled_channels()`
unfoldable pub target_channels : List AlertChannel → AlertSystem → List AlertChannel
unfolding enabled_channels
target_channels [] a = enabled_channels a
target_channels (c ∷ cs) a = c ∷ cs

unfoldable pub deliver_all : (AlertChannel → Bool) → List AlertChannel → Dict Bool → Dict Bool
unfolding channel_name
deliver_all sent [] results = results
deliver_all sent (c ∷ cs) results = deliver_all sent cs (insert (channel_name c) (sent c) results)

unfoldable pub alert_rows : AlertLevel → String → Dict Bool → List AlertRow
alert_rows l subject [] = []
alert_rows l subject ((c, ok) ∷ rs) =
    record { row_level = l; row_channel = c; row_subject = subject; row_sent = ok }
    ∷ alert_rows l subject rs

abbrev first_rows : ℕ → List AlertRow → List AlertRow
first_rows n [] = []
first_rows zero (r ∷ rs) = []
first_rows (suc n) (r ∷ rs) = r ∷ first_rows n rs

-- A failure of the table, after some rows, is caught.
unfoldable pub log_alert : Option ℕ → AlertLevel → String → Dict Bool → AlertSystem → AlertSystem
unfolding alert_rows
log_alert none l subject results a = record a { rows = a.rows ++ alert_rows l subject results }
log_alert (some n) l subject results a = record a {
  rows = a.rows ++ first_rows n (alert_rows l subject results);
}

pub record Alert : Type 0 where
  pub time : ℕ
  pub level : AlertLevel
  pub subject : String
  pub channels : List AlertChannel
  -- what the channels answer, and after how many rows the table fails
  pub sent : AlertChannel → Bool
  pub table_fails : Option ℕ

unfoldable pub dispatch_alert : Alert → AlertSystem → Dict Bool × AlertSystem
unfolding deliver_all target_channels log_alert
dispatch_alert c a =
    let results = deliver_all c.sent (target_channels c.channels a) [] in
    (results, log_alert c.table_fails c.level c.subject results a)

unfoldable pub send_alert : Alert → AlertSystem → Dict Bool × AlertSystem
unfolding should_send is_rate_limited dispatch_alert
send_alert c a =
    let (limited, a') = is_rate_limited c.time c.subject a in
    if not (should_send c.level a)
    then ([], a)
    else if limited
    then ([], a')
    else dispatch_alert c a'

unfoldable pub send_alerts : List Alert → AlertSystem → AlertSystem
unfolding send_alert
send_alerts [] a = a
send_alerts (c ∷ cs) a = send_alerts cs (send_alert c a).1
