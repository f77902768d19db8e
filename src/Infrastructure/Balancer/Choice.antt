-- ===== src/Infrastructure/Balancer/Choice.antt =====
-- What the load balancer of backend/infrastructure/mt5_pool.py chooses.
use native.Mathlib.Nat.{mod-lt}
use dutchkem_trading_ai.Common.{
  ◌+◌, ◌++◌, subst, ◌∙◌, ap, ℕ, zero, suc, ◌%◌, ◌≤◌, Option, none, some, Bool, true, false, List,
  [], ◌∷◌, if◌then◌else◌, length, ◌≡◌, ◌⊎◌, inl, inr, refl, arith, Bool-cases, sym,
}
use dutchkem_trading_ai.Infrastructure.Balancer.{
  Connection, Strategy, round_robin, least_connections, random, latency_based, is_available, keep,
  min_by, latency_less, use_less, nth, choose, choose_from, select_connection,
}

abbrev pub In : Connection → List Connection → Type 0
In c [] = ⊥
In c (d ∷ cs) = (c ≡ d) ⊎ In c cs

keep-In_cons :
    (p : Connection → Bool) (c d : Connection) (kept cs : List Connection)
    → p d ≡ true
    → (In c kept → In c cs × (p c ≡ true))
    → In c (d ∷ kept)
    → In c (d ∷ cs) × (p c ≡ true)
keep-In_cons p c d kept cs e ih (inl f) = (inl f, ap p f ∙ e)
keep-In_cons p c d kept cs e ih (inr h) = let r = ih h in (inr r.0, r.1)

keep-In :
    (p : Connection → Bool) (c : Connection) (cs : List Connection)
    → In c (keep p cs)
    → In c cs × (p c ≡ true)
unfolding keep
keep-In p c [] h = elim h [ ]
keep-In p c (d ∷ cs) h = elim (Bool-cases (p d)) [
  | inl e ↦ keep-In_cons p c d (keep p cs) cs e (keep-In p c cs) (rw e at h)
  | inr e ↦ let r = keep-In p c cs (rw e at h) in (inr r.0, r.1)
]

keep-In_rev :
    (p : Connection → Bool) (c : Connection) (cs : List Connection)
    → In c cs
    → p c ≡ true
    → In c (keep p cs)
unfolding keep
keep-In_rev p c [] h e = elim h [ ]
keep-In_rev p c (d ∷ cs) (inl g) e = rw (ap p (sym g) ∙ e) (inl g)
keep-In_rev p c (d ∷ cs) (inr h) e = elim (Bool-cases (p d)) [
  | inl f ↦ rw f (inr (keep-In_rev p c cs h e))
  | inr f ↦ rw f (keep-In_rev p c cs h e)
]

nth-In : (n : ℕ) (c : Connection) (cs : List Connection) → In (nth n c cs) (c ∷ cs)
unfolding nth
nth-In zero c cs = inl refl
nth-In (suc n) c [] = inl refl
nth-In (suc n) c (d ∷ cs) = inr (nth-In n d cs)

-- a strict order whose incomparable entries count as equal
record IsStrict (less : Connection → Connection → Bool) : Type 0 where
  irreflexive : (a : Connection) → less a a ≡ false
  asymmetric : (a b : Connection) → less a b ≡ true → less b a ≡ false
  not_less_trans : (a b c : Connection) → less a b ≡ false → less b c ≡ false → less a c ≡ false

use_less-IsStrict : IsStrict use_less
unfolding use_less
use_less-IsStrict = record {
  irreflexive = λ a. ground arith;
  asymmetric = λ a b h. ground arith;
  not_less_trans = λ a b c h k. ground arith;
}

latency_less-IsStrict : IsStrict latency_less
unfolding latency_less
latency_less-IsStrict = record {
  irreflexive = λ a. ground arith;
  asymmetric = λ a b h. ground arith;
  not_less_trans = λ a b c h k. ground arith;
}

In-skip : (x b c : Connection) (cs : List Connection) → In x (b ∷ cs) → In x (b ∷ c ∷ cs)
In-skip x b c cs (inl e) = inl e
In-skip x b c cs (inr h) = inr (inr h)

module _ (less : Connection → Connection → Bool) where
  min_by-In : (b : Connection) (cs : List Connection) → In (min_by less b cs) (b ∷ cs)
  unfolding min_by
  min_by-In b [] = inl refl
  min_by-In b (c ∷ cs) = elim (Bool-cases (less c b)) [
    | inl e ↦
        subst (λ x. In x (b ∷ c ∷ cs)) (sym (ap (λ t. min_by less (if t then c else b) cs) e))
          (inr (min_by-In c cs))
    | inr e ↦
        subst (λ x. In x (b ∷ c ∷ cs)) (sym (ap (λ t. min_by less (if t then c else b) cs) e))
          (In-skip (min_by less b cs) b c cs (min_by-In b cs))
  ]

  least_of_smaller :
      (s : IsStrict less) (b c r : Connection) (cs : List Connection)
      → less c b ≡ true
      → ((d : Connection) → In d (c ∷ cs) → less d r ≡ false)
      → (d : Connection) → In d (b ∷ c ∷ cs)
      → less d r ≡ false
  least_of_smaller s b c r cs e ih d (inl f) =
      rw f (s.not_less_trans b c r (s.asymmetric c b e) (ih c (inl refl)))
  least_of_smaller s b c r cs e ih d (inr h) = ih d h

  least_of_kept :
      (s : IsStrict less) (b c r : Connection) (cs : List Connection)
      → less c b ≡ false
      → ((d : Connection) → In d (b ∷ cs) → less d r ≡ false)
      → (d : Connection) → In d (b ∷ c ∷ cs)
      → less d r ≡ false
  least_of_kept s b c r cs e ih d (inl f) = ih d (inl f)
  least_of_kept s b c r cs e ih d (inr (inl f)) = rw f (s.not_less_trans c b r e (ih b (inl refl)))
  least_of_kept s b c r cs e ih d (inr (inr h)) = ih d (inr h)

  min_by-least :
      (s : IsStrict less) (b : Connection) (cs : List Connection) (d : Connection)
      → In d (b ∷ cs)
      → less d (min_by less b cs) ≡ false
  unfolding min_by
  min_by-least s b [] d (inl e) = rw e (s.irreflexive b)
  min_by-least s b [] d (inr h) = elim h [ ]
  min_by-least s b (c ∷ cs) d h = elim (Bool-cases (less c b)) [
    | inl e ↦ rw e (least_of_smaller s b c (min_by less c cs) cs e (min_by-least s c cs) d h)
    | inr e ↦ rw e (least_of_kept s b c (min_by less b cs) cs e (min_by-least s b cs) d h)
  ]

-- the entry of a list at an index that counts round its length
abbrev pub AtTurn : ℕ → Connection → List Connection → Type 0
AtTurn k c ds =
    (before : List Connection) × (after : List Connection) × (ds ≡ before ++ c ∷ after)
    × (length before ≡ k % length ds)

nth-At :
    (n : ℕ) (c : Connection) (cs : List Connection)
    → n ≤ length cs
    → (before : List Connection) × (after : List Connection) × (c ∷ cs
        ≡ before ++ nth n c cs ∷ after)
      × (length before ≡ n)
unfolding nth
nth-At zero c cs h = ([], cs, refl, refl)
nth-At (suc n) c [] h = absurd (omega (arith, h))
nth-At (suc n) c (d ∷ cs) h =
    let (before, after, e, l) = nth-At n d cs (omega (arith, h)) in
    (c ∷ before, after, ap (λ (l : List Connection). c ∷ l) e, omega (arith, l))

nth-AtTurn :
    (k : ℕ) (c : Connection) (cs : List Connection)
    → AtTurn k (nth (k % suc (length cs)) c cs) (c ∷ cs)
nth-AtTurn k c cs =
    nth-At (k % suc (length cs)) c cs (omega (arith, mod-lt k {m = suc (length cs)} (omega arith)))

-- What a strategy asks of the chosen connection: that it is at the turn, or at the index that was
-- drawn, among the available ones, or that none of these has a smaller key.
abbrev pub IsBest : Strategy → ℕ → ℕ → Connection → List Connection → Type 0
IsBest least_connections turn pick c cs =
    (d : Connection) → In d cs → is_available d ≡ true → c.use_count ≤ d.use_count
IsBest latency_based turn pick c cs =
    (d : Connection) → In d cs → is_available d ≡ true → latency_less d c ≡ false
IsBest round_robin turn pick c cs = AtTurn turn c (keep is_available cs)
IsBest random turn pick c cs = AtTurn pick c (keep is_available cs)

choose-In :
    (s : Strategy) (turn pick : ℕ) (c : Connection) (cs : List Connection)
    → In (choose s turn pick c cs).0 (c ∷ cs)
unfolding choose
choose-In round_robin turn pick c cs = nth-In (turn % suc (length cs)) c cs
choose-In least_connections turn pick c cs = min_by-In use_less c cs
choose-In random turn pick c cs = nth-In (pick % suc (length cs)) c cs
choose-In latency_based turn pick c cs = min_by-In latency_less c cs

use_less-le : (a b : Connection) → use_less a b ≡ false → b.use_count ≤ a.use_count
unfolding use_less
use_less-le a b h = ground arith

choose-IsBest :
    (s : Strategy) (turn pick : ℕ) (c : Connection) (cs all : List Connection)
    → keep is_available all ≡ c ∷ cs
    → ((d : Connection) → In d all → is_available d ≡ true → In d (c ∷ cs))
    → IsBest s turn pick (choose s turn pick c cs).0 all
unfolding choose
choose-IsBest round_robin turn pick c cs all e k = rw e (nth-AtTurn turn c cs)
choose-IsBest random turn pick c cs all e k = rw e (nth-AtTurn pick c cs)
choose-IsBest least_connections turn pick c cs all e k = λ d h e.
    use_less-le d (min_by use_less c cs) (min_by-least use_less use_less-IsStrict c cs d (k d h e))
choose-IsBest latency_based turn pick c cs all e k =
    λ d h e. min_by-least latency_less latency_less-IsStrict c cs d (k d h e)

abbrev pub Selected : Strategy → ℕ → ℕ → List Connection → Option Connection → Type 0
Selected s turn pick cs none = (d : Connection) → In d cs → is_available d ≡ false
Selected s turn pick cs (some c) = In c cs × (is_available c ≡ true) × IsBest s turn pick c cs

choose_from-Selected :
    (s : Strategy) (turn pick : ℕ) (all kept : List Connection)
    → keep is_available all ≡ kept
    → Selected s turn pick all (choose_from s turn pick kept).0
unfolding choose_from
choose_from-Selected s turn pick all [] e = λ d h. elim (Bool-cases (is_available d)) [
  | inl a ↦ absurd (rw e at (keep-In_rev is_available d all h a))
  | inr a ↦ a
]
choose_from-Selected s turn pick all (c ∷ cs) e =
    let chosen = (choose s turn pick c cs).0 in
    let r = keep-In is_available chosen all (rw e (choose-In s turn pick c cs)) in
    (
      r.0,
      r.1,
      choose-IsBest s turn pick c cs all e (λ d h a. rw e at (keep-In_rev is_available d all h a)),
    )

-- Under every strategy a connection is selected exactly if one is idle and healthy; it is then one of
-- the pool's that is idle and healthy: the one at the turn, or at the index drawn, among these, or one
-- that none of these has a smaller key than (a latency never measured counts as the longest).
pub select_connection-Selected :
    (s : Strategy) (turn pick : ℕ) (cs : List Connection)
    → Selected s turn pick cs (select_connection s turn pick cs).0
unfolding select_connection
select_connection-Selected s turn pick cs =
    choose_from-Selected s turn pick cs (keep is_available cs) refl

-- The turn goes on by one exactly when a connection is selected in turn.
abbrev pub TurnsOn : Strategy → ℕ → List Connection → ℕ → Type 0
TurnsOn s turn cs turn' =
    (s ≡ round_robin → (d : Connection) → In d cs → is_available d ≡ true → turn' ≡ turn + 1)
    × (((d : Connection) → In d cs → is_available d ≡ false) → turn' ≡ turn)
    × ((s ≡ round_robin → ⊥) → turn' ≡ turn)

not_both : (b : Bool) → b ≡ true → b ≡ false → ⊥
not_both b e f = cc

choose-turn :
    (s : Strategy) (turn pick : ℕ) (c : Connection) (cs : List Connection)
    → (s ≡ round_robin → (choose s turn pick c cs).1 ≡ turn + 1)
      × ((s ≡ round_robin → ⊥) → (choose s turn pick c cs).1 ≡ turn)
unfolding choose
choose-turn round_robin turn pick c cs = (λ e. refl, λ n. absurd (n refl))
choose-turn least_connections turn pick c cs = (λ e. absurd cc, λ n. refl)
choose-turn random turn pick c cs = (λ e. absurd cc, λ n. refl)
choose-turn latency_based turn pick c cs = (λ e. absurd cc, λ n. refl)

choose_from-TurnsOn :
    (s : Strategy) (turn pick : ℕ) (all kept : List Connection)
    → keep is_available all ≡ kept
    → TurnsOn s turn all (choose_from s turn pick kept).1
unfolding choose_from
choose_from-TurnsOn s turn pick all [] e =
    (λ f d h a. absurd (rw e at (keep-In_rev is_available d all h a)), λ h. refl, λ n. refl)
choose_from-TurnsOn s turn pick all (c ∷ cs) e =
    let t = choose-turn s turn pick c cs in
    let k = keep-In is_available c all (rw e (inl refl)) in
    (λ f d h a. t.0 f, λ h. absurd (not_both (is_available c) k.1 (h c k.0)), λ n. t.1 n)

pub select_connection-TurnsOn :
    (s : Strategy) (turn pick : ℕ) (cs : List Connection)
    → TurnsOn s turn cs (select_connection s turn pick cs).1
unfolding select_connection
select_connection-TurnsOn s turn pick cs =
    choose_from-TurnsOn s turn pick cs (keep is_available cs) refl
