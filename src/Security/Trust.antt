-- ===== src/Security/Trust.antt =====
-- The cache, the request and the trust score of the zero trust middleware,
-- backend/security/zero_trust.py: DeviceFingerprint, IPReputationChecker and TrustScorer. The cache is
-- the part of the state that the module writes, without the expiry of its entries.
use dutchkem_trading_ai.Common.Dict.{Dict, lookup, insert, remove}
use dutchkem_trading_ai.Common.{
  ℕ, ◌+◌, ◌/◌, ◌%◌, String, Option, none, some, Bool, true, false, List, [], ◌∷◌, ◌++◌, leb, ltb,
  ◌==◌, if◌then◌else◌, length, str_eq,
}

-- what the cache holds under the module's keys
pub record Cache : Type 0 where
  pub ip_blocked : Dict Bool
  pub ip_tor : Dict Bool
  pub device_fp : Dict (List String)
  pub behavior : Dict (List ℕ)
  pub revoked_tokens : Dict Bool

-- The `iat` claim: absent, a time, or a value that no date can be made of.
pub data IssuedAt : Type 0 where
  absent : IssuedAt
  at : ℕ → IssuedAt
  malformed : IssuedAt

pub record Claims : Type 0 where
  pub user_id : String
  pub jti : String
  pub iat : IssuedAt

pub record Request : Type 0 where
  pub path : String
  pub authorization : String
  pub client_ip : String
  pub fingerprint : String

unfoldable pub in_list : String → List String → Bool
in_list s [] = false
in_list s (t ∷ ts) = if str_eq s t then true else in_list s ts

-- `DeviceFingerprint.verify`
unfoldable pub verify : String → String → Cache → Bool × Cache
unfolding in_list
verify user_id fp c =
    let history : List String = elim (lookup user_id c.device_fp) [ none ↦ [] | some h ↦ h ] in
    if in_list fp history
    then (true, c)
    else if leb 10 (length history)
    then (false, record c { device_fp = remove user_id c.device_fp })
    else (true, record c { device_fp = insert user_id (history ++ fp ∷ []) c.device_fp })

-- What the import of a model of blocked addresses gives: nothing where the import fails, or the test
-- of the table. A failed import is caught.
abbrev pub BlockedTable : Type 0
BlockedTable = Option (String → Bool)

abbrev table_says : BlockedTable → String → Bool
table_says none ip = false
table_says (some p) ip = p ip

unfoldable pub is_blocked : BlockedTable → String → Cache → Bool × Cache
is_blocked table ip c = elim (lookup ip c.ip_blocked) [
  | some cached ↦ (cached, c)
  | none ↦
      (table_says table ip, record c { ip_blocked = insert ip (table_says table ip) c.ip_blocked })
]

unfoldable pub is_tor_exit : List String → String → Cache → Bool × Cache
unfolding in_list
is_tor_exit known ip c = elim (lookup ip c.ip_tor) [
  | some cached ↦ (cached, c)
  | none ↦ (in_list ip known, record c { ip_tor = insert ip (in_list ip known) c.ip_tor })
]

unfoldable pub get_reputation_score : BlockedTable → List String → String → Cache → ℕ × Cache
unfolding is_blocked is_tor_exit
get_reputation_score table known ip c =
    let (blocked, c1) = is_blocked table ip c in
    if blocked
    then (0, c1)
    else let (tor, c2) = is_tor_exit known ip c1 in (if tor then 10 else 100, c2)

-- `round(n * 25 / 100)`, that is n / 4 to the nearest, halves to the even neighbour
unfoldable pub ip_score : ℕ → ℕ
ip_score n =
    let q = n / 4 in
    let r = n % 4 in
    if ltb r 2 then q else if r == 3 then q + 1 else if q % 2 == 0 then q else q + 1

unfoldable pub score_at : ℕ → ℕ → ℕ
score_at now issued =
    if leb (issued / 3600 % 24) 5 then 5 else if ltb (issued + 28800) now then 8 else 15

unfoldable pub time_anomaly_score : ℕ → IssuedAt → ℕ
unfolding score_at
time_anomaly_score now absent = score_at now 0
time_anomaly_score now (at issued) = score_at now issued
time_anomaly_score now malformed = 10

unfoldable pub recent : ℕ → List ℕ → List ℕ
recent now [] = []
recent now (t ∷ ts) = let rest = recent now ts in if ltb now (t + 60) then t ∷ rest else rest

unfoldable pub velocity_score : ℕ → ℕ
velocity_score n = if ltb 100 n then 5 else if ltb 50 n then 10 else 20

unfoldable pub behavioral_score : ℕ → String → Cache → ℕ × Cache
unfolding recent velocity_score
behavioral_score now user_id c =
    if str_eq user_id ""
    then (15, c)
    else let past : List ℕ = elim (lookup user_id c.behavior) [ none ↦ [] | some ts ↦ ts ] in
      let times = recent now past ++ now ∷ [] in
      (velocity_score (length times), record c { behavior = insert user_id times c.behavior })

unfoldable pub device_score : Bool → Bool → ℕ
device_score jwt_valid device_match = if device_match then 20 else if jwt_valid then 10 else 0

unfoldable pub compute : ℕ → Bool → Claims → ℕ → Bool → String → Cache → ℕ × Cache
unfolding ip_score time_anomaly_score behavioral_score device_score
compute now jwt_valid claims ip_reputation device_match user_id c =
    let (behavioral, c') = behavioral_score now user_id c in
    (
      (if jwt_valid then 20 else 0)
          + ip_score ip_reputation
          + device_score jwt_valid device_match
          + time_anomaly_score now claims.iat
          + behavioral,
      c',
    )
