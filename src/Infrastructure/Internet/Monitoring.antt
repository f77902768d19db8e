-- ===== src/Infrastructure/Internet/Monitoring.antt =====
-- What a turn of the monitor of backend/infrastructure/internet_failover.py does, how failures in a row
-- are counted, and what a failover leaves.
use dutchkem_trading_ai.Infrastructure.Selection.{or_text}
use dutchkem_trading_ai.Infrastructure.Nodes.{holds_id}
use dutchkem_trading_ai.Common.Dict.{lookup-modify, contains, Dict, lookup}
use dutchkem_trading_ai.Common.{
  ◌++◌, eq_refl, ap, eq_iff, str_eq, leb, ◌-◌, if◌then◌else◌, Bool-cases, ◌∙◌, ◌+◌, refl, arith,
  zero, Option-cases, suc, ℕ, String, Option, some, List, [], ◌∷◌, true, ◌&&◌, ◌≡◌, ◌⊎◌, inl, inr,
}
use dutchkem_trading_ai.Infrastructure.Internet.{
  keys, select_backup_isp, or_text, after_probe, keys, test_all_connections, switch_isp,
  any_success, trigger_isp_failover, test_each, test_connectivity, report_degraded, lookup,
  isp_monitor_turn,
}
use dutchkem_trading_ai.Infrastructure.Connections.{
  disconnected, degraded, degraded, disconnected, result_is_degraded, on_degraded, is_success,
  reached, isp_switched, refused, InternetFailover, Probe, TestResult, IspConnection,
}

abbrev Among : String → List String → Type 0
Among k [] = ⊥
Among k (j ∷ l) = (j ≡ k) ⊎ Among k l

contains-Among : (k : String) (d : Dict IspConnection) → contains k d ≡ true → Among k (keys d)
unfolding lookup
contains-Among k [] h = ground (arith, h)
contains-Among k ((j, c) ∷ d) h = elim (Bool-cases (str_eq j k)) [
  | inl e ↦ inl (ground (arith, eq_iff j k))
  | inr e ↦ inr (contains-Among k d (ground arith))
]

module _ (threshold latency : ℕ) (probe : String → Probe) (now : ℕ) where
  -- the parts that tests leave alone
  test_each-fixed :
      (ks : List String) (m : InternetFailover)
      → let m' = (test_each threshold latency probe now ks m).1 in
        (m'.active_isp_id ≡ m.active_isp_id) × (m'.isp_failover_log ≡ m.isp_failover_log)
  unfolding test_each test_connectivity
  test_each-fixed [] m = (refl, refl)
  test_each-fixed (k ∷ ks) m =
      let m' = (test_connectivity threshold latency probe now k m).1 in
      let (a, b) = test_each-fixed ks m' in
      elim (Option-cases (lookup k m.connections)) [
        | inl e ↦ (a ∙ ground arith, b ∙ ground arith)
        | inr (c, e) ↦ (a ∙ ground arith, b ∙ ground arith)
      ]

  test_connectivity-contains :
      (k j : String) (m : InternetFailover)
      → contains j (test_connectivity threshold latency probe now k m).1.connections
        ≡ contains j m.connections
  unfolding test_connectivity
  test_connectivity-contains k j m =
      ground (arith, lookup-modify k j (after_probe threshold latency (probe k) now) m.connections)

  test_connectivity-passes :
      (k : String) {l : ℕ} (m : InternetFailover)
      → probe k ≡ reached l
      → contains k m.connections ≡ true
      → is_success (test_connectivity threshold latency probe now k m).0 ≡ true
  unfolding test_connectivity
  test_connectivity-passes k m h c = ground arith

  test_each-success :
      (k : String) {l : ℕ} (ks : List String) (m : InternetFailover)
      → probe k ≡ reached l
      → contains k m.connections ≡ true
      → Among k ks
      → any_success (test_each threshold latency probe now ks m).0 ≡ true
  unfolding test_each any_success
  test_each-success k [] m h c a = elim a [ ]
  test_each-success k {l} (j ∷ ks) m h c (inl e) =
      rw
        (test_connectivity-passes j {l = l} m (ap probe e ∙ h)
          (ap (λ x. contains x m.connections) e ∙ c))
        refl
  test_each-success k {l} (j ∷ ks) m h c (inr a) =
      let m' = (test_connectivity threshold latency probe now j m).1 in
      ground (arith, test_each-success k {l = l} ks m' h (test_connectivity-contains j k m ∙ c) a)

  report_degraded-fixed :
      (rs : Dict TestResult) (m : InternetFailover)
      → let m' = report_degraded rs m in
        (m'.active_isp_id ≡ m.active_isp_id) × (m'.isp_failover_log ≡ m.isp_failover_log)
  unfolding report_degraded
  report_degraded-fixed [] m = (refl, refl)
  report_degraded-fixed ((k, r) ∷ rs) m =
      elim (Bool-cases (result_is_degraded r && holds_id m.active_isp_id k)) [
        | inl c ↦
            rw (c, report_degraded)
              (report_degraded-fixed rs
                (record m { isp_notices = m.isp_notices ++ on_degraded k ∷ [] }))
        | inr c ↦ rw (c, report_degraded) (report_degraded-fixed rs m)
      ]

  -- A turn of the monitor in which any registered connection can be reached changes neither the
  -- active connection nor the log of failovers, also where the active connection itself is down.
  pub isp_monitor_turn-stays :
      (k : String) (l : ℕ) (m : InternetFailover)
      → contains k m.connections ≡ true
      → probe k ≡ reached l
      → let m' = isp_monitor_turn threshold latency probe now m in
        (m'.active_isp_id ≡ m.active_isp_id) × (m'.isp_failover_log ≡ m.isp_failover_log)
  unfolding isp_monitor_turn test_all_connections
  isp_monitor_turn-stays k l m c h =
      let ks = keys m.connections in
      let s = test_each-success k {l = l} ks m h c (contains-Among k m.connections c) in
      let t = test_each threshold latency probe now ks m in
      let (a, b) = test_each-fixed ks m in
      let (d, f) = report_degraded-fixed t.0 t.1 in (rw s (d ∙ a), rw s (f ∙ b))

-- Failing tests of one connection, in a row.
abbrev pub fail_times :
    ℕ → ℕ → (String → Probe) → ℕ → String → ℕ → InternetFailover → InternetFailover
fail_times threshold latency probe now k zero m = m
fail_times threshold latency probe now k (suc n) m =
    fail_times threshold latency probe now k n (test_connectivity threshold latency probe now k m).1

fail_once :
    (threshold latency : ℕ) (probe : String → Probe) (now : ℕ) (k e : String) (c : IspConnection)
    (m : InternetFailover)
    → probe k ≡ refused e
    → lookup k m.connections ≡ some c
    → lookup k (test_connectivity threshold latency probe now k m).1.connections
      ≡ some (after_probe threshold latency (refused e) now c)
unfolding test_connectivity
fail_once threshold latency probe now k e c m h l = ground (
  arith,
  lookup-modify k k (after_probe threshold latency (probe k) now) m.connections,
  eq_refl k,
)

-- After n failed tests in a row and one more, a registered connection counts them all, and is
-- disconnected exactly from the threshold on, degraded below it.
pub test_connectivity-failures :
    (threshold latency : ℕ) (probe : String → Probe) (now : ℕ) (k e : String) (n : ℕ)
    (c : IspConnection) (m : InternetFailover)
    → probe k ≡ refused e
    → lookup k m.connections ≡ some c
    → let m' = fail_times threshold latency probe now k (suc n) m in
      (c' : IspConnection) × (lookup k m'.connections ≡ some c')
      × (c'.consecutive_failures ≡ c.consecutive_failures + n + 1)
      × (c'.total_failures ≡ c.total_failures + n + 1)
      × (c'.status
          ≡ (if leb threshold (c.consecutive_failures + n + 1) then disconnected else degraded))
unfolding after_probe
test_connectivity-failures threshold latency probe now k e zero c m h l = (
  after_probe threshold latency (refused e) now c,
  fail_once threshold latency probe now k e c m h l,
  omega arith,
  omega arith,
  ground arith,
)
test_connectivity-failures threshold latency probe now k e (suc n) c m h l =
    let m' = (test_connectivity threshold latency probe now k m).1 in
    let (c', a, b, d, f) =
      test_connectivity-failures threshold latency probe now k e n
        (after_probe threshold latency (refused e) now c) m' h
        (fail_once threshold latency probe now k e c m h l) in
    (c', a, omega (arith, b), omega (arith, d), f ∙ ground arith)

-- A failover that is not carried out changes nothing; one that is switches from a registered
-- connection to a registered one, which is the active one after it.
pub trigger_isp_failover-outcome :
    (source target : Option String) (start now : ℕ) (m : InternetFailover)
    → let (reply, m') = trigger_isp_failover source target start now m in
      (m' ≡ m)
      ⊎ ((s : String) × (t : String) × (reply ≡ isp_switched s t (now - start))
          × (contains s m.connections ≡ true)
          × (contains t m.connections ≡ true)
          × (m'.active_isp_id ≡ some t))
unfolding trigger_isp_failover switch_isp
trigger_isp_failover-outcome source target start now m =
    elim (Option-cases (or_text source m.active_isp_id)) [
      | inl e ↦ inl (rw (e, trigger_isp_failover) refl)
      | inr (s, e) ↦ elim (Bool-cases (contains s m.connections)) [
        | inr c ↦ inl (ground arith)
        | inl c ↦ elim (Option-cases (or_text target (select_backup_isp s m))) [
          | inl f ↦ inl (ground arith)
          | inr (t, f) ↦ elim (Bool-cases (contains t m.connections)) [
            | inr g ↦ inl (ground arith)
            | inl g ↦ inr (s, t, ground arith, c, g, ground arith)
          ]
        ]
      ]
    ]
