-- ===== src/Security/Intrusion/Logins.antt =====
-- The login detection of backend/security/intrusion_detection.py against the history of attempts as
-- they came in, in one list of all users and addresses.
use dutchkem_trading_ai.Common.Dict.{lookup-insert, lookup, Dict}
use dutchkem_trading_ai.Security.Intrusion.{
  rank, max_level, level_info, level_high, detect_time_anomaly, threat_level, listed,
  level_critical, blocks, ThreatLevel, analyze, analyze_login, LoginThreat, credential_stuffing,
  brute_force, count_distinct, new_analyzer, entries_of, LoginAnalyzer, Dict, record_login,
  recent_users, recent_failures, detect_credential_stuffing, detect_brute_force, add_entry,
}
use dutchkem_trading_ai.Common.{
  false, true, ◌||◌, eq_iff, ◌+◌, none, not, ltb, ◌&&◌, some, str_eq, refl, leb, if◌then◌else◌,
  arith, [], ◌≡◌, ◌∷◌, ◌++◌, ℕ, Bool, String, List,
}
use mathlib.Core.List.{append_assoc, append-nil}
use mathlib.Core.Path.{sym, ap, ap₂ as ap2, ◌∙◌}

pub record Attempt : Type 0 where
  pub user : String
  pub ip : String
  pub success : Bool
  pub time : ℕ

unfoldable pub record_all : List Attempt → LoginAnalyzer → LoginAnalyzer
record_all [] s = s
record_all (h ∷ hs) s = record_all hs (record_login h.user h.ip h.success h.time s)

-- the failures of a user in the last 300 seconds
unfoldable pub failures_of : String → ℕ → List Attempt → ℕ
failures_of user now [] = 0
failures_of user now (h ∷ hs) =
    (if str_eq h.user user && (not h.success && ltb now (h.time + 300)) then 1 else 0)
    + failures_of user now hs

-- the users that an address tried in the last 600 seconds
unfoldable pub users_from : String → ℕ → List Attempt → List String
users_from ip now [] = []
users_from ip now (h ∷ hs) =
    let rest = users_from ip now hs in
    if str_eq h.ip ip && ltb now (h.time + 600) then h.user ∷ rest else rest

unfoldable pub users_of : String → List Attempt → List (ℕ × Bool)
users_of user [] = []
users_of user (h ∷ hs) =
    let rest = users_of user hs in if str_eq h.user user then (h.time, h.success) ∷ rest else rest

unfoldable pub seen_at : String → List Attempt → List (ℕ × String)
seen_at ip [] = []
seen_at ip (h ∷ hs) =
    let rest = seen_at ip hs in if str_eq h.ip ip then (h.time, h.user) ∷ rest else rest

entries_of-add_entry {ℓ} :
    {V : Type ℓ} (k j : String) (v : V) (d : Dict (List V))
    → entries_of j (add_entry k v d)
      ≡ (if str_eq k j then entries_of j d ++ v ∷ [] else entries_of j d)
unfolding add_entry
entries_of-add_entry k j v d =
    ground (arith, lookup-insert k j (entries_of k d ++ v ∷ []) d, eq_iff k j)

user_entries :
    (user : String) (hs : List Attempt) (s : LoginAnalyzer)
    → entries_of user (record_all hs s).user_logins
      ≡ entries_of user s.user_logins ++ users_of user hs
unfolding record_all users_of record_login
user_entries user [] s = sym (append-nil (entries_of user s.user_logins))
user_entries user (h ∷ hs) s =
    let s' = record_login h.user h.ip h.success h.time s in
    ground (
      arith,
      user_entries user hs s',
      entries_of-add_entry h.user user (h.time, h.success) s.user_logins,
      append_assoc (entries_of user s.user_logins) ((h.time, h.success) ∷ []) (users_of user hs),
    )

ip_entries :
    (ip : String) (hs : List Attempt) (s : LoginAnalyzer)
    → entries_of ip (record_all hs s).ip_logins ≡ entries_of ip s.ip_logins ++ seen_at ip hs
unfolding record_all seen_at record_login
ip_entries ip [] s = sym (append-nil (entries_of ip s.ip_logins))
ip_entries ip (h ∷ hs) s =
    let s' = record_login h.user h.ip h.success h.time s in
    ground (
      arith,
      ip_entries ip hs s',
      entries_of-add_entry h.ip ip (h.time, h.user) s.ip_logins,
      append_assoc (entries_of ip s.ip_logins) ((h.time, h.user) ∷ []) (seen_at ip hs),
    )

recent_failures-users_of :
    (user : String) (now : ℕ) (hs : List Attempt)
    → recent_failures now (users_of user hs) ≡ failures_of user now hs
unfolding recent_failures users_of failures_of
recent_failures-users_of user now [] = refl
recent_failures-users_of user now (h ∷ hs) = ground (arith, recent_failures-users_of user now hs)

recent_users-seen_at :
    (ip : String) (now : ℕ) (hs : List Attempt)
    → recent_users now (seen_at ip hs) ≡ users_from ip now hs
unfolding recent_users seen_at users_from
recent_users-seen_at ip now [] = refl
recent_users-seen_at ip now (h ∷ hs) = ground (arith, recent_users-seen_at ip now hs)

record_all-after :
    (hs : List Attempt) (h : Attempt) (s : LoginAnalyzer)
    → record_all (hs ++ h ∷ []) s ≡ record_login h.user h.ip h.success h.time (record_all hs s)
unfolding record_all
record_all-after [] h s = refl
record_all-after (g ∷ hs) h s = record_all-after hs h (record_login g.user g.ip g.success g.time s)

detect_brute_force-failures :
    (user : String) (now : ℕ) (hs : List Attempt)
    → detect_brute_force user now (record_all hs new_analyzer)
      ≡ (let n = failures_of user now hs in if leb 5 n then some (brute_force n) else none)
unfolding detect_brute_force lookup
detect_brute_force-failures user now hs =
    rw (user_entries user hs new_analyzer, ← recent_failures-users_of user now hs) refl

detect_credential_stuffing-users :
    (ip : String) (now : ℕ) (hs : List Attempt)
    → detect_credential_stuffing ip now (record_all hs new_analyzer) ≡ (
        let n = count_distinct (users_from ip now hs) in
        if leb 10 n then some (credential_stuffing n) else none)
unfolding detect_credential_stuffing lookup
detect_credential_stuffing-users ip now hs =
    rw (ip_entries ip hs new_analyzer, ← recent_users-seen_at ip now hs) refl

-- the threats, from the numbers they are decided on
abbrev found : Bool → ℕ → ℕ → ℕ → List LoginThreat
found success m n now =
    listed (if success then none else (if leb 5 m then some (brute_force m) else none))
    ++ (listed (if leb 10 n then some (credential_stuffing n) else none)
        ++ listed (detect_time_anomaly now))

blocks-found :
    (success : Bool) (m n now : ℕ)
    → blocks (found success m n now) ≡ ((not success && leb 5 m) || leb 10 n)
unfolding blocks detect_time_anomaly
blocks-found true m n now = ground arith
blocks-found false m n now = ground arith

abbrev expected_level : Bool → ℕ → ℕ → ThreatLevel
expected_level success m n =
    if leb 10 n then level_critical else if not success && leb 5 m then level_high else level_info

threat_level-found :
    (success : Bool) (m n now : ℕ)
    → threat_level (found success m n now) level_info ≡ expected_level success m n
unfolding threat_level detect_time_anomaly max_level rank
threat_level-found true m n now = ground arith
threat_level-found false m n now = ground arith

analyze-found :
    (hs : List Attempt) (h : Attempt)
    → let all = hs ++ h ∷ [] in
      (analyze h.user h.ip h.success h.time (record_all hs new_analyzer)).0
      ≡ found h.success
          (failures_of h.user h.time all)
          (count_distinct (users_from h.ip h.time all))
          h.time
unfolding analyze
analyze-found hs h =
    let all = hs ++ h ∷ [] in
    let e = sym (record_all-after hs h new_analyzer) in
    let brute =
      ap (detect_brute_force h.user h.time) e ∙ detect_brute_force-failures h.user h.time all in
    let stuffing =
      ap (detect_credential_stuffing h.ip h.time) e
      ∙ detect_credential_stuffing-users h.ip h.time all in
    ap2
      (λ b c.
        listed (if h.success then none else b) ++ (listed c ++ listed (detect_time_anomaly h.time)))
      brute stuffing

-- After any attempts, a further one is blocked exactly if it fails and is at least the fifth failure
-- of its user within 300 seconds, or its address tried at least ten different users within 600
-- seconds, itself included: what other users and addresses did has no influence. The level is
-- critical in the second case, high in the first one alone, and info else, at whatever hour.
pub analyze_login-blocks :
    (hs : List Attempt) (h : Attempt)
    → let all = hs ++ h ∷ [] in
      let failures = failures_of h.user h.time all in
      let users = count_distinct (users_from h.ip h.time all) in
      let verdict = (analyze_login h.user h.ip h.success h.time (record_all hs new_analyzer)).0 in
      (verdict.blocked ≡ ((not h.success && leb 5 failures) || leb 10 users))
      × (verdict.level ≡ (
          if leb 10 users
          then level_critical
          else if not h.success && leb 5 failures
          then level_high
          else level_info))
unfolding analyze_login
analyze_login-blocks hs h =
    let all = hs ++ h ∷ [] in
    let failures = failures_of h.user h.time all in
    let users = count_distinct (users_from h.ip h.time all) in
    let e = analyze-found hs h in
    (
      rw e (blocks-found h.success failures users h.time),
      rw e (threat_level-found h.success failures users h.time),
    )
