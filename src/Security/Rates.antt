-- ===== src/Security/Rates.antt =====
-- The request rates of backend/security/intrusion_detection.py, `RateAnalyzer`, with its default
-- windows of one minute, five minutes and one hour. Times are whole seconds and are positive; the
-- averages are compared exactly, over a common denominator.
use dutchkem_trading_ai.Common.Dict.{Dict, lookup, insert}
use dutchkem_trading_ai.Common.{
  ℕ, ◌+◌, ◌*◌, ◌-◌, String, Option, none, some, Bool, true, false, List, [], ◌∷◌, ltb, leb, ◌==◌,
  ◌&&◌, not, if◌then◌else◌, length,
}
pub mod Forgetting

abbrev pub Buckets : Type 0
Buckets = Dict (List ℕ)

-- `t > now - window`
unfoldable pub in_window : ℕ → ℕ → ℕ → Bool
in_window now window t = ltb now (t + window)

unfoldable pub pruned : ℕ → ℕ → List ℕ → List ℕ
unfolding in_window
pruned now window [] = []
pruned now window (t ∷ ts) =
    let rest = pruned now window ts in if in_window now window t then t ∷ rest else rest

-- `self._buckets[key]`, which a read creates empty
abbrev pub bucket : String → Buckets → List ℕ
bucket key b = elim (lookup key b) [ none ↦ [] | some ts ↦ ts ]

-- The pruned list takes the old list's place in the dict; the time is then appended to the old list,
-- which nothing holds any longer.
unfoldable pub record_request : String → ℕ → Buckets → Buckets
unfolding pruned
record_request key now b = insert key (pruned now 3600 (bucket key b)) b

unfoldable pub count_where : (ℕ → Bool) → List ℕ → ℕ
count_where p [] = 0
count_where p (t ∷ ts) = (if p t then 1 else 0) + count_where p ts

unfoldable pub count_in_window : String → ℕ → ℕ → Buckets → ℕ
unfolding count_where in_window
count_in_window key window now b = count_where (in_window now window) (bucket key b)

pub data RateThreat : Type 0 where
  rate_spike : ℕ → RateThreat
  sustained_high_rate : ℕ → RateThreat

-- before the last minute, within a window
unfoldable pub earlier : ℕ → ℕ → ℕ → Bool
unfolding in_window
earlier now window t = in_window now window t && not (in_window now 60 t)

-- The average of the two longer windows' rates per minute is (12 a + b) / 120 for counts a and b, and
-- a spike is more than three times that.
unfoldable pub detect_spike : String → ℕ → Buckets → Option RateThreat
unfolding pruned count_where in_window earlier
detect_spike key now b =
    let ts = pruned now 3600 (bucket key b) in
    let current = count_where (in_window now 60) ts in
    let weighted = 12 * count_where (earlier now 300) ts + count_where (earlier now 3600) ts in
    if ltb (length ts) 10
    then none
    else if weighted == 0
    then none
    else if ltb weighted (40 * current)
    then some (rate_spike current)
    else none

unfoldable pub detect_sustained : String → ℕ → Buckets → Option RateThreat
unfolding count_in_window
detect_sustained key now b =
    let n = count_in_window key 3600 now b in
    if ltb 1800 n then some (sustained_high_rate n) else none

unfoldable pub analyze_rate : String → ℕ → Buckets → Option RateThreat
unfolding detect_spike detect_sustained
analyze_rate key now b = elim (detect_spike key now b) [
  | some t ↦ some t
  | none ↦ detect_sustained key now b
]

-- Requests, each under the key of its caller.
unfoldable pub record_requests : List (String × ℕ) → Buckets → Buckets
unfolding record_request
record_requests [] b = b
record_requests ((key, now) ∷ rs) b = record_requests rs (record_request key now b)
