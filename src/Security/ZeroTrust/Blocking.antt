-- ===== src/Security/ZeroTrust/Blocking.antt =====
-- Blocked addresses in backend/security/zero_trust.py, where the import of the model of blocked
-- addresses fails: accounts/models.py declares none, and the failure is caught.
use dutchkem_trading_ai.Common.Dict.{lookup, insert, lookup-insert}
use dutchkem_trading_ai.Common.{
  ℕ, String, Option, none, some, Bool, true, false, List, ◌≡◌, ◌≢◌, ◌⊎◌, inl, inr, refl, arith,
  Bool-cases, Option-cases, str_eq, ◌∙◌, ap,
}
use dutchkem_trading_ai.Security.Trust.{
  Cache, Claims, Request, is_blocked, is_tor_exit, get_reputation_score, behavioral_score, compute,
  verify, in_list,
}
use dutchkem_trading_ai.Security.ZeroTrust.{
  bearer_token, process_request, check_claims, check_token, validate_jwt, exempt_paths,
}
use text.Mathlib.Text.{starts_with}

-- no cached entry says that an address is blocked
abbrev pub NeverBlocked : Cache → Type 0
NeverBlocked c = (ip : String) → lookup ip c.ip_blocked ≢ some true

none_is_true : {A : Type 0} {a : A} → none ≡ some a → ⊥
none_is_true e = cc

not_true : (b : Bool) → b ≢ true → b ≡ false
not_true true h = absurd (h refl)
not_true false h = refl

inserted :
    (ip j : String) (c : Cache)
    → lookup j c.ip_blocked ≢ some true
    → lookup j (insert ip false c.ip_blocked) ≢ some true
inserted ip j c h e = elim (Bool-cases (str_eq ip j)) [
  | inl same ↦ ground (arith, rw (lookup-insert ip j false c.ip_blocked, same) at e)
  | inr other ↦ h (rw (lookup-insert ip j false c.ip_blocked, other) at e)
]

is_blocked-NeverBlocked :
    (ip : String) (c : Cache)
    → NeverBlocked c
    → ((is_blocked none ip c).0 ≡ false) × NeverBlocked (is_blocked none ip c).1
unfolding is_blocked
is_blocked-NeverBlocked ip c h = elim (Option-cases (lookup ip c.ip_blocked)) [
  | inr (b, e) ↦ rw (e, is_blocked) (not_true b (λ q. h ip (e ∙ ap some q)), h)
  | inl e ↦ rw (e, is_blocked) (refl, λ j. inserted ip j c (h j))
]

-- what leaves the entries of blocked addresses alone
is_tor_exit-blocked :
    (known : List String) (ip : String) (c : Cache)
    → (is_tor_exit known ip c).1.ip_blocked ≡ c.ip_blocked
unfolding is_tor_exit
is_tor_exit-blocked known ip c = ground arith

verify-blocked : (u fp : String) (c : Cache) → (verify u fp c).1.ip_blocked ≡ c.ip_blocked
unfolding verify
verify-blocked u fp c = ground arith

compute-blocked :
    (now : ℕ) (k : Claims) (reputation : ℕ) (match : Bool) (u : String) (c : Cache)
    → (compute now true k reputation match u c).1.ip_blocked ≡ c.ip_blocked
unfolding compute behavioral_score
compute-blocked now k reputation match u c = ground arith

get_reputation_score-NeverBlocked :
    (known : List String) (ip : String) (c : Cache)
    → NeverBlocked c
    → ((get_reputation_score none known ip c).0 ≢ 0)
      × NeverBlocked (get_reputation_score none known ip c).1
unfolding get_reputation_score
get_reputation_score-NeverBlocked known ip c h =
    let (n, h1) = is_blocked-NeverBlocked ip c h in
    let c1 = (is_blocked none ip c).1 in
    rw (n, get_reputation_score) (ground arith, λ j. rw (is_tor_exit-blocked known ip c1) (h1 j))

module _ (decode : String → Option Claims) (known : List String) where
  check_token-NeverBlocked :
      (now : ℕ) (r : Request) (o : Option Claims) (c : Cache)
      → NeverBlocked c
      → NeverBlocked (check_token decode none known now r o c).1
  unfolding check_token check_claims
  check_token-NeverBlocked now r none c h = h
  check_token-NeverBlocked now r (some k) c h =
      let (_, h1) = get_reputation_score-NeverBlocked known r.client_ip c h in
      let rep = get_reputation_score none known r.client_ip c in
      let dev = verify k.user_id r.fingerprint rep.1 in
      λ j.
        rw
          (
            compute-blocked now k rep.0 dev.0 k.user_id dev.1,
            verify-blocked k.user_id r.fingerprint rep.1,
          )
          (h1 j)

  -- the cache after a request is that of before, or what the check of its token leaves
  after_request :
      (now : ℕ) (r : Request) (c : Cache)
      → let claims =
          validate_jwt decode none known (bearer_token decode none known r.authorization) c in
        ((process_request decode none known now r c).1 ≡ c)
        ⊎ ((process_request decode none known now r c).1
            ≡ (check_token decode none known now r claims c).1)
  unfolding process_request
  after_request now r c = elim (Bool-cases (in_list r.path exempt_paths)) [
    | inl e ↦ rw e (inl refl)
    | inr e ↦ elim (Bool-cases (starts_with r.path "/api/")) [
      | inr f ↦ rw (e, f) (inl refl)
      | inl f ↦ elim (Bool-cases (starts_with r.authorization "Bearer ")) [
        | inr g ↦ rw (e, f, g) (inl refl)
        | inl g ↦ rw (e, f, g) (inr refl)
      ]
    ]
  ]

  -- Where the table of blocked addresses cannot be imported, a cache that holds no blocked address
  -- holds none after a request either, and the reputation of an address, blocked by an operator or not,
  -- is never 0.
  pub process_request-NeverBlocked :
      (now : ℕ) (r : Request) (c : Cache)
      → NeverBlocked c
      → NeverBlocked (process_request decode none known now r c).1
        × ((get_reputation_score none known r.client_ip c).0 ≢ 0)
  process_request-NeverBlocked now r c h =
      let claims =
        validate_jwt decode none known (bearer_token decode none known r.authorization) c in
      (
        elim (after_request now r c) [
          | inl e ↦ λ j. rw e (h j)
          | inr e ↦ λ j. rw e (check_token-NeverBlocked now r claims c h j)
        ],
        (get_reputation_score-NeverBlocked known r.client_ip c h).0,
      )
