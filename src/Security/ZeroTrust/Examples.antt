-- ===== src/Security/ZeroTrust/Examples.antt =====
-- Tests of the zero trust middleware of backend/security/zero_trust.py, and its theorems at concrete
-- inputs.
use dutchkem_trading_ai.Common.{
  if◌then◌else◌, String, Option, none, some, false, List, [], ◌∷◌, ◌≡◌, ◌≢◌, refl, str_eq,
}
use dutchkem_trading_ai.Common.Dict.{remove, lookup}
use dutchkem_trading_ai.Security.Trust.{Cache, Claims, at, Request, verify, get_reputation_score}
use dutchkem_trading_ai.Security.ZeroTrust.{
  admitted, process_request, required_trust_level, segment_trust_levels,
}
use dutchkem_trading_ai.Security.ZeroTrust.Levels.{OfLongest, required_trust_level-OfLongest}
use dutchkem_trading_ai.Security.ZeroTrust.Admission.{Entitled, process_request-Entitled}
use dutchkem_trading_ai.Security.ZeroTrust.Blocking.{NeverBlocked, process_request-NeverBlocked}

abbrev empty_cache : Cache
empty_cache = record {
  ip_blocked = [];
  ip_tor = [];
  device_fp = [];
  behavior = [];
  revoked_tokens = [];
}

abbrev claims : Claims
claims = record { user_id = "7"; jti = "t1"; iat = at 1000040000 }

abbrev decode : String → Option Claims
decode token = if str_eq token "abc" then some claims else none

abbrev order : Request
order = record {
  path = "/api/v1/trading/execute/";
  authorization = "Bearer abc";
  client_ip = "10.0.0.1";
  fingerprint = "f1";
}

execute_needs_80 : required_trust_level "/api/v1/trading/execute/" ≡ 80
unfolding required_trust_level
execute_needs_80 = refl

trading_needs_70 : required_trust_level "/api/v1/trading/close/" ≡ 70
unfolding required_trust_level
trading_needs_70 = refl

admitted_with_100 :
    (process_request decode none [] 1000040100 order empty_cache).0 ≡ admitted 100 "7"
unfolding process_request lookup
admitted_with_100 = refl

required_trust_level-OfLongest_example :
    OfLongest "/api/v1/trading/execute/" segment_trust_levels
      (required_trust_level "/api/v1/trading/execute/")
required_trust_level-OfLongest_example = required_trust_level-OfLongest "/api/v1/trading/execute/"

process_request-Entitled_example : Entitled decode order empty_cache 100 "7"
unfolding process_request lookup
process_request-Entitled_example =
    process_request-Entitled decode none [] 1000040100 order empty_cache 100 "7" refl

none_is_true : {A : Type 0} {a : A} → none ≡ some a → ⊥
none_is_true e = cc

nothing_cached : NeverBlocked empty_cache
unfolding lookup
nothing_cached ip e = none_is_true e

process_request-NeverBlocked_example :
    NeverBlocked (process_request decode none [] 1000040100 order empty_cache).1
    × ((get_reputation_score none [] "10.0.0.1" empty_cache).0 ≢ 0)
process_request-NeverBlocked_example =
    process_request-NeverBlocked decode [] 1000040100 order empty_cache nothing_cached

-- a device that is not among ten known ones is refused, and the history is forgotten
abbrev ten : List String
ten = "a" ∷ "b" ∷ "c" ∷ "d" ∷ "e" ∷ "f" ∷ "g" ∷ "h" ∷ "i" ∷ "j" ∷ []

history_forgotten :
    verify "7" "new" (record empty_cache { device_fp = ("7", ten) ∷ [] }) ≡ (false, empty_cache)
unfolding verify lookup remove
history_forgotten = refl
