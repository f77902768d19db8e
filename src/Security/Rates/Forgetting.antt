-- ===== src/Security/Rates/Forgetting.antt =====
-- What the rate analyzer of backend/security/intrusion_detection.py remembers.
use dutchkem_trading_ai.Common.Dict.{lookup, lookup-insert}
use dutchkem_trading_ai.Common.{
  ℕ, String, none, List, [], ◌∷◌, ◌≡◌, refl, arith, Bool-cases, inl, inr, str_eq,
}
use dutchkem_trading_ai.Security.Rates.{
  Buckets, bucket, record_request, record_requests, pruned, count_in_window, count_where,
  analyze_rate, detect_spike, detect_sustained,
}

abbrev AllEmpty : Buckets → Type 0
AllEmpty b = (key : String) → bucket key b ≡ []

record_request-AllEmpty :
    (key : String) (now : ℕ) (b : Buckets) → AllEmpty b → AllEmpty (record_request key now b)
unfolding record_request pruned
record_request-AllEmpty key now b h k = elim (Bool-cases (str_eq key k)) [
  | inl e ↦ ground (arith, lookup-insert key k (pruned now 3600 (bucket key b)) b, e, h key)
  | inr e ↦ ground (arith, lookup-insert key k (pruned now 3600 (bucket key b)) b, e, h k)
]

record_requests-AllEmpty :
    (rs : List (String × ℕ)) (b : Buckets) → AllEmpty b → AllEmpty (record_requests rs b)
unfolding record_requests
record_requests-AllEmpty [] b h = h
record_requests-AllEmpty ((key, now) ∷ rs) b h =
    record_requests-AllEmpty rs (record_request key now b) (record_request-AllEmpty key now b h)

empty_bucket : (k : String) → bucket k [] ≡ []
unfolding lookup
empty_bucket k = refl

detect_spike-none :
    (key : String) (now : ℕ) (b : Buckets) → bucket key b ≡ [] → detect_spike key now b ≡ none
unfolding detect_spike pruned
detect_spike-none key now b e = ground (arith, e)

count_in_window-zero :
    (key : String) (now window : ℕ) (b : Buckets)
    → bucket key b ≡ []
    → count_in_window key window now b ≡ 0
unfolding count_in_window count_where
count_in_window-zero key now window b e = rw (e, count_in_window) refl

detect_sustained-none :
    (key : String) (now : ℕ) (b : Buckets) → bucket key b ≡ [] → detect_sustained key now b ≡ none
unfolding detect_sustained
detect_sustained-none key now b e = ground (arith, count_in_window-zero key now 3600 b e)

quiet : (key : String) (now : ℕ) (b : Buckets) → bucket key b ≡ [] → analyze_rate key now b ≡ none
unfolding analyze_rate
quiet key now b e = ground (arith, detect_spike-none key now b e, detect_sustained-none key now b e)

-- However many requests were recorded, with whatever times and callers, a new rate analyzer counts no
-- request in any window, and finds no threat: the time is appended to a list that was just replaced.
pub analyze_rate-none :
    (rs : List (String × ℕ)) (key : String) (now window : ℕ)
    → let b = record_requests rs [] in
      (analyze_rate key now b ≡ none) × (count_in_window key window now b ≡ 0)
analyze_rate-none rs key now window =
    let b = record_requests rs [] in
    let e = record_requests-AllEmpty rs [] (λ k. empty_bucket k) key in
    (quiet key now b e, count_in_window-zero key now window b e)
