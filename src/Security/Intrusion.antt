-- ===== src/Security/Intrusion.antt =====
-- The detection of attacks on the login, LoginAnalyzer and analyze_login of
-- backend/security/intrusion_detection.py, with its default thresholds. Times are whole seconds and are
-- positive; the row of the event log is left out.
use dutchkem_trading_ai.Common.Dict.{Dict, lookup, insert}
use dutchkem_trading_ai.Common.{
  ℕ, ◌+◌, ◌/◌, ◌%◌, String, Option, none, some, Bool, true, false, List, [], ◌∷◌, ◌++◌, ltb, leb,
  ◌==◌, ◌&&◌, ◌||◌, not, if◌then◌else◌, length,
}
use dutchkem_trading_ai.Security.Trust.{in_list}
pub mod Logins
mod Examples

pub data ThreatLevel : Type 0 where
  level_none level_low level_info level_medium level_high level_critical : ThreatLevel

unfoldable pub rank : ThreatLevel → ℕ
rank level_none = 0
rank level_low = 1
rank level_info = 2
rank level_medium = 3
rank level_high = 4
rank level_critical = 5

-- `max` of two members of the integer enumeration
unfoldable pub max_level : ThreatLevel → ThreatLevel → ThreatLevel
unfolding rank
max_level a b = if ltb (rank a) (rank b) then b else a

pub record LoginAnalyzer : Type 0 where
  pub user_logins : Dict (List (ℕ × Bool))
  pub ip_logins : Dict (List (ℕ × String))

abbrev pub new_analyzer : LoginAnalyzer
new_analyzer = record { user_logins = []; ip_logins = [] }

abbrev pub entries_of {ℓ} : {V : Type ℓ} → String → Dict (List V) → List V
entries_of k d = elim (lookup k d) [ none ↦ [] | some vs ↦ vs ]

unfoldable pub add_entry {ℓ} : {V : Type ℓ} → String → V → Dict (List V) → Dict (List V)
add_entry k v d = insert k (entries_of k d ++ v ∷ []) d

unfoldable pub record_login : String → String → Bool → ℕ → LoginAnalyzer → LoginAnalyzer
unfolding add_entry
record_login user ip success now s = record {
  user_logins = add_entry user (now, success) s.user_logins;
  ip_logins = add_entry ip (now, user) s.ip_logins;
}

pub data LoginThreat : Type 0 where
  brute_force : ℕ → LoginThreat
  credential_stuffing : ℕ → LoginThreat
  unusual_login_time : ℕ → LoginThreat

-- `len(recent_failures)`, those after the cutoff of 300 seconds ago
unfoldable pub recent_failures : ℕ → List (ℕ × Bool) → ℕ
recent_failures now [] = 0
recent_failures now ((t, success) ∷ es) =
    (if not success && ltb now (t + 300) then 1 else 0) + recent_failures now es

unfoldable pub detect_brute_force : String → ℕ → LoginAnalyzer → Option LoginThreat
unfolding recent_failures
detect_brute_force user now s =
    let n = recent_failures now (entries_of user s.user_logins) in
    if leb 5 n then some (brute_force n) else none

unfoldable pub recent_users : ℕ → List (ℕ × String) → List String
recent_users now [] = []
recent_users now ((t, user) ∷ es) =
    let rest = recent_users now es in if ltb now (t + 600) then user ∷ rest else rest

-- the size of the set of them
unfoldable pub count_distinct : List String → ℕ
unfolding in_list
count_distinct [] = 0
count_distinct (x ∷ xs) = (if in_list x xs then 0 else 1) + count_distinct xs

unfoldable pub detect_credential_stuffing : String → ℕ → LoginAnalyzer → Option LoginThreat
unfolding recent_users count_distinct
detect_credential_stuffing ip now s =
    let n = count_distinct (recent_users now (entries_of ip s.ip_logins)) in
    if leb 10 n then some (credential_stuffing n) else none

-- outside of 5 to 23 hours UTC
unfoldable pub detect_time_anomaly : ℕ → Option LoginThreat
detect_time_anomaly now =
    let hour = now / 3600 % 24 in
    if leb 5 hour && ltb hour 23 then none else some (unusual_login_time hour)

abbrev pub listed {ℓ} : {A : Type ℓ} → Option A → List A
listed none = []
listed (some a) = a ∷ []

unfoldable pub analyze :
    String → String → Bool → ℕ → LoginAnalyzer → List LoginThreat × LoginAnalyzer
unfolding record_login detect_brute_force detect_credential_stuffing detect_time_anomaly
analyze user ip success now s =
    let s' = record_login user ip success now s in
    (
      listed (if success then none else detect_brute_force user now s')
          ++ (listed (detect_credential_stuffing ip now s') ++ listed (detect_time_anomaly now)),
      s',
    )

unfoldable pub threat_level : List LoginThreat → ThreatLevel → ThreatLevel
unfolding max_level
threat_level [] l = l
threat_level (brute_force n ∷ ts) l = threat_level ts (max_level l level_high)
threat_level (credential_stuffing n ∷ ts) l = threat_level ts (max_level l level_critical)
threat_level (unusual_login_time h ∷ ts) l = threat_level ts (max_level l level_low)

unfoldable pub blocks : List LoginThreat → Bool
blocks [] = false
blocks (brute_force n ∷ ts) = true
blocks (credential_stuffing n ∷ ts) = true
blocks (unusual_login_time h ∷ ts) = blocks ts

pub record LoginVerdict : Type 0 where
  pub level : ThreatLevel
  pub blocked : Bool
  pub threats : List LoginThreat

unfoldable pub analyze_login :
    String → String → Bool → ℕ → LoginAnalyzer → LoginVerdict × LoginAnalyzer
unfolding analyze threat_level blocks
analyze_login user ip success now s =
    let (threats, s') = analyze user ip success now s in
    (
      record {
        level = threat_level threats level_info;
        blocked = blocks threats;
        threats = threats;
      },
      s',
    )
