-- ===== src/Security/ZeroTrust/Admission.antt =====
-- Which requests the middleware of backend/security/zero_trust.py lets in.
use Prim.Native.String.{len, slice}
use text.Mathlib.Text.{starts_with}
use dutchkem_trading_ai.Common.Dict.{lookup}
use dutchkem_trading_ai.Common.{
  refl, subst, ℕ, ◌≤◌, String, Option, none, some, Bool, true, false, List, [], ◌∷◌, ◌++◌, length,
  ◌≡◌, ◌≢◌, inl, inr, arith, Bool-cases, Option-cases, str_eq, ◌∙◌, sym, ap,
}
use dutchkem_trading_ai.Security.Trust.{
  recent, Cache, Claims, IssuedAt, absent, at, malformed, Request, BlockedTable,
  get_reputation_score, ip_score, score_at, time_anomaly_score, velocity_score, behavioral_score,
  device_score, compute, verify, in_list,
}
use dutchkem_trading_ai.Security.ZeroTrust.{
  check_token, process_request, Verdict, unless_revoked, admitted, check_claims, validate_jwt,
  decide, required_trust_level, exempt_paths,
}

score_at-le : (now i : ℕ) → score_at now i ≤ 15
unfolding score_at
score_at-le now i = ground arith

time_anomaly_score-le : (now : ℕ) (i : IssuedAt) → time_anomaly_score now i ≤ 15
unfolding time_anomaly_score
time_anomaly_score-le now absent = score_at-le now 0
time_anomaly_score-le now (at i) = score_at-le now i
time_anomaly_score-le now malformed = omega arith

velocity_score-le : (n : ℕ) → velocity_score n ≤ 20
unfolding velocity_score
velocity_score-le n = ground arith

behavioral_score-le : (now : ℕ) (u : String) (c : Cache) → (behavioral_score now u c).0 ≤ 20
unfolding behavioral_score
behavioral_score-le now u c = elim (Bool-cases (str_eq u "")) [
  | inl e ↦ rw e (omega arith)
  | inr e ↦
      let past : List ℕ = elim (lookup u c.behavior) [ none ↦ [] | some ts ↦ ts ] in
      rw e (velocity_score-le (length (recent now past ++ now ∷ [])))
]

ip_score-le : (n : ℕ) → n ≤ 100 → ip_score n ≤ 25
unfolding ip_score
ip_score-le n h = ground arith

get_reputation_score-le :
    (t : BlockedTable) (known : List String) (ip : String) (c : Cache)
    → (get_reputation_score t known ip c).0 ≤ 100
unfolding get_reputation_score
get_reputation_score-le t known ip c = ground arith

compute-le :
    (now : ℕ) (valid : Bool) (k : Claims) (reputation : ℕ) (match : Bool) (u : String) (c : Cache)
    → reputation ≤ 100
    → (compute now valid k reputation match u c).0 ≤ 100
unfolding compute device_score
compute-le now valid k reputation match u c h =
    ground (
      arith,
      ip_score-le reputation h,
      time_anomaly_score-le now k.iat,
      behavioral_score-le now u c,
    )

-- What an admission shows of a request.
pub record Entitled (decode : String → Option Claims) (r : Request) (c : Cache) (score : ℕ)
    (user : String) : Type 0 where
  pub claims : Claims
  pub not_exempt : in_list r.path exempt_paths ≡ false
  pub in_api : starts_with r.path "/api/" ≡ true
  pub has_token : starts_with r.authorization "Bearer " ≡ true
  pub decoded : decode (slice r.authorization 7 (len r.authorization)) ≡ some claims
  pub not_revoked : lookup claims.jti c.revoked_tokens ≢ some true
  pub user_same : user ≡ claims.user_id
  pub trusted : required_trust_level r.path ≤ score
  pub in_range : score ≤ 100

abbrev is_admitted : Verdict → Bool
is_admitted (admitted s u) = true
is_admitted _ = false

not_admitted : {o : Verdict} {s : ℕ} {u : String} → is_admitted o ≡ false → o ≡ admitted s u → ⊥
not_admitted h e = ground (arith, h, e)

none_is_some : {A : Type 0} {a : A} → none ≡ some a → ⊥
none_is_some e = cc

module _ (decode : String → Option Claims) (table : BlockedTable) (known : List String) where
  unless_revoked-some :
      (j k : Claims) (c : Cache)
      → unless_revoked decode table known j c ≡ some k
      → (j ≡ k) × (lookup j.jti c.revoked_tokens ≢ some true)
  unfolding unless_revoked
  unless_revoked-some j k c h = elim (Option-cases (lookup j.jti c.revoked_tokens)) [
    | inl e ↦ (ground (arith, e), λ q. none_is_some (sym e ∙ q))
    | inr (b, e) ↦ (ground (arith, e), λ q. ground (arith, e, q))
  ]

  validate_jwt-some :
      (token : String) (c : Cache) (k : Claims)
      → validate_jwt decode table known token c ≡ some k
      → (decode token ≡ some k) × (lookup k.jti c.revoked_tokens ≢ some true)
  unfolding validate_jwt
  validate_jwt-some token c k h = elim (Option-cases (decode token)) [
    | inl e ↦ absurd (none_is_some (rw (e, validate_jwt) at h))
    | inr (j, e) ↦
        let u = unless_revoked-some j k c (rw (e, validate_jwt) at h) in
        (e ∙ ap some u.0, subst (λ (x : Claims). lookup x.jti c.revoked_tokens ≢ some true) u.0 u.1)
  ]

  decide-admitted :
      (score required : ℕ) (u : String) (s : ℕ) (user : String)
      → decide decode table known score required u ≡ admitted s user
      → (required ≤ s) × (s ≡ score) × (user ≡ u)
  unfolding decide
  decide-admitted score required u s user h = ground arith

  check_claims-admitted :
      (now : ℕ) (r : Request) (k : Claims) (c : Cache) (score : ℕ) (user : String)
      → (check_claims decode table known now r k c).0 ≡ admitted score user
      → (required_trust_level r.path ≤ score) × (score ≤ 100) × (user ≡ k.user_id)
  unfolding check_claims
  check_claims-admitted now r k c score user h =
      let rep = get_reputation_score table known r.client_ip c in
      let dev = verify k.user_id r.fingerprint rep.1 in
      let total = compute now true k rep.0 dev.0 k.user_id dev.1 in
      let d = decide-admitted total.0 (required_trust_level r.path) k.user_id score user h in
      let le =
        compute-le now true k rep.0 dev.0 k.user_id dev.1
          (get_reputation_score-le table known r.client_ip c) in
      (d.0, omega (arith, d.1, le), d.2)

  claims-Entitled :
      (now : ℕ) (r : Request) (c : Cache) (score : ℕ) (user : String) (o : Option Claims)
      → in_list r.path exempt_paths ≡ false
      → starts_with r.path "/api/" ≡ true
      → starts_with r.authorization "Bearer " ≡ true
      → validate_jwt decode table known (slice r.authorization 7 (len r.authorization)) c ≡ o
      → (check_token decode table known now r o c).0 ≡ admitted score user
      → Entitled decode r c score user
  unfolding check_token
  claims-Entitled now r c score user none a b t v h = absurd (not_admitted refl h)
  claims-Entitled now r c score user (some k) a b t v h =
      let w = validate_jwt-some (slice r.authorization 7 (len r.authorization)) c k v in
      let d = check_claims-admitted now r k c score user h in
      record {
        claims = k;
        not_exempt = a;
        in_api = b;
        has_token = t;
        decoded = w.0;
        not_revoked = w.1;
        user_same = d.2;
        trusted = d.0;
        in_range = d.1;
      }

  -- A request that the middleware admits with a trust score is an API request outside of the exempt
  -- paths; its header bears a token that is decoded, not revoked, and names the user; and its score is
  -- at most 100 and at least what the path needs.
  pub process_request-Entitled :
      (now : ℕ) (r : Request) (c : Cache) (score : ℕ) (user : String)
      → (process_request decode table known now r c).0 ≡ admitted score user
      → Entitled decode r c score user
  unfolding process_request
  process_request-Entitled now r c score user h = elim (Bool-cases (in_list r.path exempt_paths)) [
    | inl e ↦ absurd (not_admitted refl (rw e at h))
    | inr e ↦ elim (Bool-cases (starts_with r.path "/api/")) [
      | inr f ↦ absurd (not_admitted refl (rw (e, f) at h))
      | inl f ↦ elim (Bool-cases (starts_with r.authorization "Bearer ")) [
        | inr g ↦ absurd (not_admitted refl (rw (e, f, g) at h))
        | inl g ↦
            claims-Entitled now r c score user
              (validate_jwt decode table known (slice r.authorization 7 (len r.authorization)) c) e
              f g refl (rw (e, f, g) at h)
      ]
    ]
  ]
