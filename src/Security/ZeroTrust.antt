-- ===== src/Security/ZeroTrust.antt =====
-- The middleware itself, ZeroTrustMiddleware of backend/security/zero_trust.py. The JWT library is a
-- parameter, the audit log is left out, and the client's address is an input of a request.
use Prim.Native.String.{count, len, slice}
use text.Mathlib.Text.{starts_with}
use dutchkem_trading_ai.Common.Dict.{Dict, lookup, insert, remove}
use dutchkem_trading_ai.Common.{
  ℕ, zero, suc, ◌+◌, ◌*◌, ◌/◌, ◌%◌, String, Option, none, some, Bool, true, false, List, [], ◌∷◌,
  ◌++◌, leb, ltb, ◌==◌, ◌&&◌, ◌||◌, not, if◌then◌else◌, length, str_eq, find_first,
}
use dutchkem_trading_ai.Security.Trust.{
  BlockedTable, Cache, Claims, IssuedAt, Request, behavioral_score, compute, device_score,
  get_reputation_score, in_list, ip_score, is_blocked, is_tor_exit, recent, score_at,
  time_anomaly_score, velocity_score, verify, IssuedAt, absent, at, malformed,
}
pub mod Levels
pub mod Admission
pub mod Blocking
mod Examples

-- Trust that a path needs, from the entry of the longest prefix.
abbrev pub Segment : Type 0
Segment = String × ℕ

unfoldable pub segment_trust_levels : List Segment
segment_trust_levels =
    ("/api/v1/admin/", 90)
    ∷ ("/api/v1/trading/execute/", 80)
    ∷ ("/api/v1/trading/", 70)
    ∷ ("/api/v1/payments/", 85)
    ∷ ("/api/v1/accounts/", 60)
    ∷ ("/api/v1/signals/", 60)
    ∷ ("/api/v1/market-data/", 50)
    ∷ ("/api/v1/analytics/", 50)
    ∷ ("/api/v1/notifications/", 50)
    ∷ []

-- `sorted(..., key=lambda x: -len(x[0]))`, which keeps the order of entries of one length
unfoldable pub insert_by_length : Segment → List Segment → List Segment
insert_by_length s [] = s ∷ []
insert_by_length s (t ∷ ts) =
    let rest = insert_by_length s ts in
    if ltb (count t.0) (count s.0) || count t.0 == count s.0 then s ∷ t ∷ ts else t ∷ rest

unfoldable pub sort_by_length : List Segment → List Segment
unfolding insert_by_length
sort_by_length [] = []
sort_by_length (s ∷ ss) = insert_by_length s (sort_by_length ss)

unfoldable pub level_of : String → List Segment → ℕ
level_of path [] = 60
level_of path ((prefix, level) ∷ ss) = if starts_with path prefix then level else level_of path ss

unfoldable pub required_trust_level : String → ℕ
unfolding level_of sort_by_length segment_trust_levels
required_trust_level path = level_of path (sort_by_length segment_trust_levels)

pub data Verdict : Type 0 where
  passed_through : Verdict
  missing_token : Verdict
  invalid_token : Verdict
  insufficient_trust : ℕ → ℕ → Verdict
  admitted : ℕ → String → Verdict

unfoldable pub exempt_paths : List String
exempt_paths =
    "/api/v1/auth/token/" ∷ "/api/v1/auth/token/refresh/" ∷ "/api/v1/auth/login/"
    ∷ "/api/v1/auth/register/" ∷ "/api/v1/auth/" ∷ "/admin/" ∷ "/health/" ∷ "/metrics/"
    ∷ "/swagger/" ∷ "/redoc/" ∷ "/api/docs/" ∷ []

-- `jwt.decode` with its checks, of what follows `Bearer ` in the header; every exception is caught.
module _ (decode : String → Option Claims) (table : BlockedTable) (known_tor : List String) where
  abbrev is_revoked : Claims → Cache → Bool
  is_revoked claims c = elim (lookup claims.jti c.revoked_tokens) [ none ↦ false | some b ↦ b ]

  -- the token's entry among the revoked ones
  unfoldable pub unless_revoked : Claims → Cache → Option Claims
  unless_revoked claims c = if is_revoked claims c then none else some claims

  unfoldable pub validate_jwt : String → Cache → Option Claims
  unfolding unless_revoked
  validate_jwt token c = elim (decode token) [ none ↦ none | some claims ↦ unless_revoked claims c ]

  unfoldable pub decide : ℕ → ℕ → String → Verdict
  decide score required user_id =
      if ltb score required then insufficient_trust score required else admitted score user_id

  unfoldable pub check_claims : ℕ → Request → Claims → Cache → Verdict × Cache
  unfolding get_reputation_score verify compute decide required_trust_level
  check_claims now r claims c =
      let (reputation, c1) = get_reputation_score table known_tor r.client_ip c in
      let (device_match, c2) = verify claims.user_id r.fingerprint c1 in
      let (score, c3) = compute now true claims reputation device_match claims.user_id c2 in
      (decide score (required_trust_level r.path) claims.user_id, c3)

  abbrev bearer_token : String → String
  bearer_token header = slice header 7 (len header)

  unfoldable pub check_token : ℕ → Request → Option Claims → Cache → Verdict × Cache
  unfolding check_claims
  check_token now r none c = (invalid_token, c)
  check_token now r (some claims) c = check_claims now r claims c

  unfoldable pub process_request : ℕ → Request → Cache → Verdict × Cache
  unfolding in_list exempt_paths validate_jwt check_token
  process_request now r c =
      if in_list r.path exempt_paths || not (starts_with r.path "/api/")
      then (passed_through, c)
      else if not (starts_with r.authorization "Bearer ")
      then (missing_token, c)
      else check_token now r (validate_jwt (bearer_token r.authorization) c) c
