-- ===== src/Security/Intrusion/Examples.antt =====
-- Runs of the intrusion detection on attempts to log in and on requests.
use dutchkem_trading_ai.Common.Dict.{insert, lookup}
use dutchkem_trading_ai.Security.Rates.Forgetting.{analyze_rate-none}
use dutchkem_trading_ai.Security.Intrusion.Logins.{
  analyze_login-blocks, users_from, record_all, failures_of, Attempt,
}
use dutchkem_trading_ai.Security.Rates.{count_in_window, analyze_rate, record_requests}
use dutchkem_trading_ai.Security.Intrusion.{
  lookup, level_info, level_high, level_critical, new_analyzer, count_distinct, analyze_login,
}
use dutchkem_trading_ai.Common.{
  if◌then◌else◌, ◌||◌, leb, ◌&&◌, not, refl, none, ◌≡◌, ◌∷◌, ℕ, true, false, [], ◌++◌, String, List,
}

failure_at : String → String → ℕ → Attempt
failure_at user ip time = record { user = user; ip = ip; success = false; time = time }

four_failures : List Attempt
four_failures =
    failure_at "ada" "10.0.0.1" 1000
    ∷ failure_at "bob" "10.0.0.1" 1010
    ∷ failure_at "ada" "10.0.0.2" 1020
    ∷ failure_at "ada" "10.0.0.3" 1030
    ∷ failure_at "ada" "10.0.0.1" 1100
    ∷ []

fifth_blocked :
    (analyze_login "ada" "10.0.0.9" false 1299 (record_all four_failures new_analyzer)).0.blocked
    ≡ true
unfolding analyze_login lookup insert record_all four_failures failure_at
fifth_blocked = refl

too_late :
    (analyze_login "ada" "10.0.0.9" false 1300 (record_all four_failures new_analyzer)).0.blocked
    ≡ false
unfolding analyze_login lookup insert record_all four_failures failure_at
too_late = refl

success_passes :
    (analyze_login "ada" "10.0.0.9" true 1299 (record_all four_failures new_analyzer)).0.blocked
    ≡ false
unfolding analyze_login lookup insert record_all four_failures failure_at
success_passes = refl

analyze_login-blocks_example :
    let h = failure_at "ada" "10.0.0.9" 1299 in
    let all = four_failures ++ h ∷ [] in
    let failures = failures_of "ada" 1299 all in
    let users = count_distinct (users_from "10.0.0.9" 1299 all) in
    let verdict =
      (analyze_login "ada" "10.0.0.9" false 1299 (record_all four_failures new_analyzer)).0 in
    (verdict.blocked ≡ ((not false && leb 5 failures) || leb 10 users))
    × (verdict.level ≡ (
        if leb 10 users
        then level_critical
        else if not false && leb 5 failures
        then level_high
        else level_info))
unfolding failure_at failures_of
analyze_login-blocks_example = analyze_login-blocks four_failures (failure_at "ada" "10.0.0.9" 1299)

burst : List (String × ℕ)
burst = ("10.0.0.1", 1000) ∷ ("10.0.0.1", 1000) ∷ ("10.0.0.1", 1001) ∷ []

analyze_rate-none_example :
    let b = record_requests burst [] in
    (analyze_rate "10.0.0.1" 1001 b ≡ none) × (count_in_window "10.0.0.1" 60 1001 b ≡ 0)
analyze_rate-none_example = analyze_rate-none burst "10.0.0.1" 1001 60
