-- ===== src/Infrastructure/Alerts/Throttling.antt =====
-- How the alerts of backend/infrastructure/alert_system.py are held back.
use dutchkem_trading_ai.Common.Dict.{lookup-insert, insert, Dict, lookup}
use dutchkem_trading_ai.Infrastructure.Alerts.{
  target_channels, within_minute, deliver_all, should_send, lookup, AlertLevel, dispatch_alert,
  AlertSystem, send_alerts, send_alert, log_alert, is_rate_limited, Alert,
}
use dutchkem_trading_ai.Common.{
  sym, ◌∙◌, eq_iff, ap, lt→ltb, inr, inl, false, arith, str_eq, Bool-cases, refl, not, ◌≤◌, ◌&&◌,
  none, ◌+◌, true, some, [], ◌≡◌, ◌∷◌, ◌<◌, Bool, String, Option, List, ℕ,
}

-- the last alert of a subject was let through at a time or later
abbrev PassedSince : ℕ → String → AlertSystem → Type 0
PassedSince t subject a = (u : ℕ) × (lookup subject a.last_alerts ≡ some u) × (t ≤ u)

log_alert-last_alerts :
    (f : Option ℕ) (l : AlertLevel) (subject : String) (results : Dict Bool) (a : AlertSystem)
    → (log_alert f l subject results a).last_alerts ≡ a.last_alerts
unfolding log_alert
log_alert-last_alerts none l subject results a = refl
log_alert-last_alerts (some n) l subject results a = refl

same_text : (s r : String) → str_eq s r ≡ true → s ≡ r
same_text s r e = ground (arith, eq_iff s r, e)

inserted-PassedSince :
    (t now : ℕ) (subject other : String) (a : AlertSystem)
    → PassedSince t subject a
    → within_minute now (lookup other a.last_alerts) ≡ false
    → PassedSince t subject (record a { last_alerts = insert other now a.last_alerts })
inserted-PassedSince t now subject other a (u, e, h) f =
    let l = lookup-insert other subject now a.last_alerts in
    elim (Bool-cases (str_eq other subject)) [
      | inl g ↦
          let f' = rw (same_text other subject g, e) at f in
          (now, ground (arith, l, g), ground (arith, f', h))
      | inr g ↦ (u, ground (arith, l, g, e), h)
    ]

is_rate_limited-PassedSince :
    (t now : ℕ) (subject other : String) (a : AlertSystem)
    → PassedSince t subject a
    → PassedSince t subject (is_rate_limited now other a).1
unfolding is_rate_limited
is_rate_limited-PassedSince t now subject other a (u, e, h) =
    elim (Bool-cases (within_minute now (lookup other a.last_alerts))) [
      | inl f ↦ rw f (u, e, h)
      | inr f ↦ rw f (inserted-PassedSince t now subject other a (u, e, h) f)
    ]

dispatch_alert-PassedSince :
    (t : ℕ) (subject : String) (c : Alert) (a : AlertSystem)
    → PassedSince t subject a
    → PassedSince t subject (dispatch_alert c a).1
unfolding dispatch_alert
dispatch_alert-PassedSince t subject c a (u, e, h) =
    let results = deliver_all c.sent (target_channels c.channels a) [] in
    (
      u,
      ap (lookup subject) (log_alert-last_alerts c.table_fails c.level c.subject results a) ∙ e,
      h,
    )

send_alert-PassedSince :
    (t : ℕ) (subject : String) (c : Alert) (a : AlertSystem)
    → PassedSince t subject a
    → PassedSince t subject (send_alert c a).1
unfolding send_alert dispatch_alert
send_alert-PassedSince t subject c a p =
    let p' = is_rate_limited-PassedSince t c.time subject c.subject a p in
    elim (Bool-cases (should_send c.level a)) [
      | inr f ↦ rw f p
      | inl f ↦ elim (Bool-cases (is_rate_limited c.time c.subject a).0) [
        | inl g ↦ rw (f, g) p'
        | inr g ↦
            rw (f, g)
              (dispatch_alert-PassedSince t subject c (is_rate_limited c.time c.subject a).1 p')
      ]
    ]

send_alerts-PassedSince :
    (t : ℕ) (subject : String) (cs : List Alert) (a : AlertSystem)
    → PassedSince t subject a
    → PassedSince t subject (send_alerts cs a)
unfolding send_alerts
send_alerts-PassedSince t subject [] a p = p
send_alerts-PassedSince t subject (c ∷ cs) a p =
    send_alerts-PassedSince t subject cs (send_alert c a).1 (send_alert-PassedSince t subject c a p)

-- whether a call goes on to the channels
unfoldable pub goes_out : Alert → AlertSystem → Bool
goes_out c a = should_send c.level a && not (is_rate_limited c.time c.subject a).0

false_not_true : false ≡ true → ⊥
false_not_true e = cc

stamped-PassedSince :
    (now : ℕ) (subject : String) (a : AlertSystem)
    → (is_rate_limited now subject a).0 ≡ false
    → PassedSince now subject (is_rate_limited now subject a).1
unfolding is_rate_limited
stamped-PassedSince now subject a g =
    elim (Bool-cases (within_minute now (lookup subject a.last_alerts))) [
      | inl f ↦ absurd (false_not_true (sym (rw f at g)))
      | inr f ↦ rw f (
        now,
        ground (arith, lookup-insert subject subject now a.last_alerts, eq_iff subject subject),
        omega arith,
      )
    ]

passes :
    (c : Alert) (a : AlertSystem)
    → goes_out c a ≡ true
    → PassedSince c.time c.subject (send_alert c a).1
unfolding goes_out send_alert
passes c a h = elim (Bool-cases (should_send c.level a)) [
  | inr f ↦ absurd (false_not_true (rw (f, goes_out) at h))
  | inl f ↦ elim (Bool-cases (is_rate_limited c.time c.subject a).0) [
    | inl g ↦ absurd (false_not_true (rw (f, g, goes_out) at h))
    | inr g ↦
        rw (f, g)
          (dispatch_alert-PassedSince c.time c.subject c (is_rate_limited c.time c.subject a).1
            (stamped-PassedSince c.time c.subject a g))
  ]
]

held_back :
    (t : ℕ) (c : Alert) (a : AlertSystem)
    → PassedSince t c.subject a
    → c.time < t + 60
    → ((send_alert c a).0 ≡ []) × ((send_alert c a).1 ≡ a)
unfolding send_alert is_rate_limited
held_back t c a (u, e, h) lt =
    let f : within_minute c.time (lookup c.subject a.last_alerts) ≡ true =
      rw e (lt→ltb c.time (u + 60) (omega (arith, h, lt))) in
    elim (Bool-cases (should_send c.level a)) [
      | inl g ↦ rw (f, g) (refl, refl)
      | inr g ↦ rw (f, g) (refl, refl)
    ]

-- After an alert that goes out to the channels, and any further alerts, an alert on the same subject
-- within 60 seconds of it is sent nowhere and leaves no trace, whatever its level is, and also if no
-- channel delivered the first one.
pub send_alert-send_alerts :
    (c : Alert) (cs : List Alert) (d : Alert) (a : AlertSystem)
    → goes_out c a ≡ true
    → d.subject ≡ c.subject
    → d.time < c.time + 60
    → let b = send_alerts cs (send_alert c a).1 in
      ((send_alert d b).0 ≡ []) × ((send_alert d b).1 ≡ b)
send_alert-send_alerts c cs d a h e lt =
    let p = send_alerts-PassedSince c.time c.subject cs (send_alert c a).1 (passes c a h) in
    held_back c.time d (send_alerts cs (send_alert c a).1) (rw e p) lt
