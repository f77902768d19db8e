-- ===== src/Infrastructure/Selection.antt =====
-- The choice of a backup that the three failover managers share (`_select_backup_node`,
-- `_select_backup_broker`, `_select_backup_isp`): the first of the highest priority among the eligible
-- entries, in the order of the dict.
use dutchkem_trading_ai.Common.Int.{◌≤ℤ◌, ◌<ℤ◌, negsuc, ℤ, ltb_ℤ}
use dutchkem_trading_ai.Common.Dict.{contains, lookup, Dict}
use dutchkem_trading_ai.Common.{
  Option-cases, refl, Bool-cases, eq_iff, inr, arith, inl, ◌⊎◌, true, ◌≡◌, str_eq, none, [], ◌∷◌,
  ◌&&◌, if◌then◌else◌, some, Option, Bool, String,
}

-- `x or None` for a text: the empty text is falsy.
unfoldable pub truthy : Option String → Option String
truthy none = none
truthy (some s) = if str_eq s "" then none else some s

-- `a or b`
unfoldable pub or_text : Option String → Option String → Option String
unfolding truthy
or_text a b = elim (truthy a) [ none ↦ truthy b | some s ↦ some s ]

module _ {ℓ} {R : Type ℓ} (eligible : String → R → Bool) (priority : R → ℤ) where
  -- The loop, from the best entry so far and its priority.
  unfoldable pub select_from : Option String → ℤ → Dict R → Option String
  select_from best best_priority [] = best
  select_from best best_priority ((k, r) ∷ d) =
      let better = eligible k r && ltb_ℤ best_priority (priority r) in
      select_from (if better then some k else best) (if better then priority r else best_priority) d

  -- It starts from no entry and a priority of -1.
  unfoldable pub select : Dict R → Option String
  unfolding select_from
  select d = select_from none (negsuc 0) d

abbrev pub Has : {R : Type 0} → String → R → Dict R → Type 0
Has k r [] = ⊥
Has k r ((j, q) ∷ d) = ((j ≡ k) × (q ≡ r)) ⊎ Has k r d

pub Has-contains : {R : Type 0} (k : String) (r : R) (d : Dict R) → Has k r d → contains k d ≡ true
unfolding lookup
Has-contains k r [] h = elim h [ ]
Has-contains k r ((j, q) ∷ d) (inl (e, _)) = ground (arith, eq_iff j k)
Has-contains k r ((j, q) ∷ d) (inr h) = ground (arith, Has-contains k r d h)

module _ {R : Type 0} (eligible : String → R → Bool) (priority : R → ℤ) where
  -- no eligible entry has a priority above p
  abbrev pub Below : ℤ → Dict R → Type 0
  Below p d = (j : String) (q : R) → Has j q d → eligible j q ≡ true → priority q ≤ℤ p

  -- an eligible entry under this key has a priority above p, and the highest of all
  abbrev pub Chosen : ℤ → String → Dict R → Type 0
  Chosen p k d =
      (r : R) × Has k r d × (eligible k r ≡ true) × (p <ℤ priority r) × Below (priority r) d

  Below-cons :
      (p : ℤ) (k : String) (r : R) (d : Dict R)
      → (eligible k r ≡ true → priority r ≤ℤ p)
      → Below p d
      → Below p ((k, r) ∷ d)
  Below-cons p k r d h b j q (inl (u, v)) e = grind (arith, h)
  Below-cons p k r d h b j q (inr t) e = b j q t e

  Below-[] : (p : ℤ) → Below p []
  Below-[] p j q h = elim h [ ]

  Chosen-here :
      (p : ℤ) (k : String) (r : R) (d : Dict R)
      → eligible k r && ltb_ℤ p (priority r) ≡ true
      → Below (priority r) d
      → Chosen p k ((k, r) ∷ d)
  Chosen-here p k r d c b = (
    r,
    inl (refl, refl),
    ground arith,
    ground arith,
    Below-cons (priority r) k r d (λ _. omega arith) b,
  )

  Chosen-later :
      (p p' : ℤ) (i : String) (r : R) (d : Dict R) {k : String}
      → p ≤ℤ p'
      → (eligible i r ≡ true → priority r ≤ℤ p')
      → Chosen p' k d
      → Chosen p k ((i, r) ∷ d)
  Chosen-later p p' i r d l h (q, t, e, m, b) =
      (q, inr t, e, omega arith, Below-cons (priority q) i r d (λ c. grind (arith, h c)) b)

  select_from-some :
      (best : Option String) (p : ℤ) (d : Dict R) {k : String}
      → select_from eligible priority best p d ≡ some k
      → ((best ≡ some k) × Below p d) ⊎ Chosen p k d
  unfolding select_from
  select_from-some best p [] h = inl (h, Below-[] p)
  select_from-some best p ((i, r) ∷ d) {k} h =
      elim (Bool-cases (eligible i r && ltb_ℤ p (priority r))) [
        | inl c ↦ elim (select_from-some (some i) (priority r) d (rw c at h)) [
          | inl (e, b) ↦ inr (ground (arith, Chosen-here p i r d c b))
          | inr t ↦ inr (Chosen-later p (priority r) i r d (ground arith) (λ _. omega arith) t)
        ]
        | inr c ↦ elim (select_from-some best p d (rw c at h)) [
          | inl (e, b) ↦ inl (e, Below-cons p i r d (λ e. ground arith) b)
          | inr t ↦ inr (Chosen-later p p i r d (omega arith) (λ e. ground arith) t)
        ]
      ]

  select_from-none :
      (best : Option String) (p : ℤ) (d : Dict R)
      → select_from eligible priority best p d ≡ none
      → (best ≡ none) × Below p d
  unfolding select_from
  select_from-none best p [] h = (h, Below-[] p)
  select_from-none best p ((i, r) ∷ d) h =
      elim (Bool-cases (eligible i r && ltb_ℤ p (priority r))) [
        | inl c ↦ ground (arith, select_from-none (some i) (priority r) d (rw c at h))
        | inr c ↦
            (let (e, b) = select_from-none best p d (rw c at h) in
              (e, Below-cons p i r d (λ e. ground arith) b))
      ]

  pub select-best :
      (d : Dict R)
      → ((select eligible priority d ≡ none) × Below (negsuc 0) d)
        ⊎ ((t : String) × (select eligible priority d ≡ some t) × Chosen (negsuc 0) t d)
  unfolding select
  select-best d = elim (Option-cases (select eligible priority d)) [
    | inl e ↦ inl (e, (select_from-none none (negsuc 0) d e).1)
    | inr (t, e) ↦ inr (t, e, ground (arith, select_from-some none (negsuc 0) d e))
  ]

  pub Chosen-contains : (p : ℤ) (k : String) (d : Dict R) → Chosen p k d → contains k d ≡ true
  Chosen-contains p k d (r, h, _, _, _) = Has-contains k r d h
