-- ===== src/Infrastructure/Pool/Checks.antt =====
-- What the health check and the reconnection of the pool of backend/infrastructure/mt5_pool.py do to
-- the connections.
use dutchkem_trading_ai.Common.{
  ℕ, ◌≤◌, Bool, true, false, List, [], ◌∷◌, not, ◌&&◌, length, ◌≡◌, ◌∙◌, inl, inr, refl, arith,
  Bool-cases, ap,
}
use dutchkem_trading_ai.Infrastructure.Balancer.{Connection, idle, is_available, is_healthy, keep}
use dutchkem_trading_ai.Infrastructure.Pool.{
  Pool, health_check, reconnected, examine, examine_all, is_expired, is_open, count_of,
}

-- What the health check keeps: a connection that is healthy, and was made at most an hour ago.
abbrev pub passes : ℕ → Connection → Bool
passes now c = is_healthy c && not (is_expired now c)

examine-is_open : (now : ℕ) (c : Connection) → is_open (examine now c) ≡ passes now c
unfolding examine is_healthy is_expired
examine-is_open now c = ground arith

examine-passing : (now : ℕ) (c : Connection) → passes now c ≡ true → examine now c ≡ c
unfolding examine is_healthy is_expired
examine-passing now c h = ground arith

keep-examined :
    (now : ℕ) (cs : List Connection) → keep is_open (examine_all now cs) ≡ keep (passes now) cs
unfolding keep
keep-examined now [] = refl
keep-examined now (c ∷ cs) = elim (Bool-cases (passes now c)) [
  | inl e ↦
      rw (examine-is_open now c, e, examine-passing now c e)
        (ap (λ (r : List Connection). c ∷ r) (keep-examined now cs))
  | inr e ↦ rw (examine-is_open now c, e) (keep-examined now cs)
]

none_unhealthy :
    (now : ℕ) (cs : List Connection) → count_of (λ c. not (is_healthy c)) (keep (passes now) cs) ≡ 0
unfolding count_of keep
none_unhealthy now [] = refl
none_unhealthy now (c ∷ cs) = elim (Bool-cases (passes now c)) [
  | inl e ↦
      let h : is_healthy c ≡ true = ground arith in
      rw e (rw h (omega (arith, none_unhealthy now cs)))
  | inr e ↦ rw e (none_unhealthy now cs)
]

-- A health check leaves in the pool exactly the connections that are healthy and at most an hour old,
-- in their order and unchanged. So it drops an older one also while a client uses it, and the number
-- of unhealthy connections that it reports is always 0.
pub health_check-keeps :
    (now : ℕ) (p : Pool)
    → ((health_check now p).1.connections ≡ keep (passes now) p.connections)
      × ((health_check now p).0.total ≡ length (keep (passes now) p.connections))
      × ((health_check now p).0.unhealthy ≡ 0)
unfolding health_check
health_check-keeps now p =
    let e = keep-examined now p.connections in
    (
      e,
      ap (λ (cs : List Connection). length cs) e,
      ap (λ (cs : List Connection). count_of (λ c. not (is_healthy c)) cs) e
          ∙ none_unhealthy now p.connections,
    )

-- A connection that fails more than five times without a success in between is not available after a
-- reconnection either, which is logged as a success: only one error is taken off its count.
pub reconnected-unavailable :
    (now : ℕ) (c : Connection)
    → 6 ≤ c.error_count
    → ((reconnected now c).state ≡ idle) × (is_available (reconnected now c) ≡ false)
unfolding reconnected is_available is_healthy
reconnected-unavailable now c h = (refl, ground arith)
