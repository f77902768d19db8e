-- ===== src/Common/Exec.antt =====
-- Python code that changes a state and may raise: what was written before a raise stays written,
-- unless the call stands under `transaction.atomic`.
use mathlib.Core.Path.{◌≡◌, refl}
use mathlib.Core.Logic.{◌⊎◌, inl, inr}
use mathlib.Core.Bool.{Bool}
use mathlib.Core.Option.{Option, none, some}
use native.Mathlib.Omega.{arith}
use dutchkem_trading_ai.Common.Tests.{if◌then◌else◌}

pub data Result (E A : Type 0) : Type 0 where
  ok : A → Result E A
  err : E → Result E A

abbrev pub Exec : Type 0 → Type 0 → Type 0 → Type 0
Exec S E A = S → Result E A × S

module _ {S E A : Type 0} where
  unfoldable pub pure : A → Exec S E A
  pure a s = (ok a, s)

  unfoldable pub raise : E → Exec S E A
  raise e s = (err e, s)

  unfoldable pub lift : Result E A → Exec S E A
  lift r s = (r, s)

  unfoldable pub gets : (S → A) → Exec S E A
  gets f s = (ok (f s), s)

  unfoldable pub or_raise : Option A → E → Exec S E A
  or_raise none e s = (err e, s)
  or_raise (some a) e s = (ok a, s)

  -- `@transaction.atomic`: an exception rolls the state back, and is raised again
  unfoldable pub atomic : Exec S E A → Exec S E A
  atomic m s = let (r, s') = m s in elim r [ ok a ↦ (ok a, s') | err e ↦ (err e, s) ]

unfoldable pub raise_if : {S E : Type 0} → Bool → E → Exec S E Unit
raise_if c e s = (if c then err e else ok tt, s)

unfoldable pub modify_state : {S E : Type 0} → (S → S) → Exec S E Unit
modify_state f s = (ok tt, f s)

infixl 5 ◌>>=◌ ◌>>◌
abbrev pub go_on : {S E A B : Type 0} → Result E A → S → (A → Exec S E B) → Result E B × S
go_on (ok a) s f = f a s
go_on (err e) s f = (err e, s)

-- opening this opens the actions above too
unfoldable pub ◌>>=◌ : {S E A B : Type 0} → Exec S E A → (A → Exec S E B) → Exec S E B
unfolding pure raise lift gets or_raise raise_if modify_state
◌>>=◌ m f s = go_on (m s).0 (m s).1 f

abbrev pub ◌>>◌ : {S E A B : Type 0} → Exec S E A → Exec S E B → Exec S E B
m >> k = m >>= λ _. k

pub Result-cases :
    {E A : Type 0} (r : Result E A) → ((a : A) × (r ≡ ok a)) ⊎ ((e : E) × (r ≡ err e))
Result-cases (ok a) = inl (a, refl)
Result-cases (err e) = inr (e, refl)

-- What holds before a transaction and at the end of its body holds after it, also if it is rolled
-- back.
pub atomic-keeps :
    {S E A : Type 0} (P : S → Type 0) (m : Exec S E A) (s : S) → P s → P (m s).1 → P (atomic m s).1
unfolding atomic
atomic-keeps P m s h k = elim (Result-cases (m s).0) [
  | inl (a, e) ↦ rw (e, atomic) k
  | inr (x, e) ↦ rw (e, atomic) h
]

-- A transaction that raises leaves the state alone.
pub atomic-err :
    {S E A : Type 0} (m : Exec S E A) (s : S) {e : E} → (atomic m s).0 ≡ err e → (atomic m s).1 ≡ s
unfolding atomic
atomic-err m s h = ground arith

-- A transaction that returns has done what its body does.
pub atomic-ok :
    {S E A : Type 0} (m : Exec S E A) (s : S) {a : A} → (atomic m s).0 ≡ ok a → atomic m s ≡ m s
unfolding atomic
atomic-ok m s h = ground arith

-- A transaction whose body ends by returning a value, where what comes before is known to succeed.
pub atomic-then_pure :
    {S E A : Type 0} (m : Exec S E Unit) (a : A) (s s' : S)
    → m s ≡ (ok tt, s')
    → atomic (m >> pure a) s ≡ (ok a, s')
unfolding atomic ◌>>=◌
atomic-then_pure m a s s' e = ground arith
