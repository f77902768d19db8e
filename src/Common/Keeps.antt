-- ===== src/Common/Keeps.antt =====
-- A property of the state that an action keeps when it begins at a given state, whether it returns
-- or raises: one rule for each way to begin an action, with what the rest may use of that step.
use dutchkem_trading_ai.Common.Tests.{if◌then◌else◌}
use dutchkem_trading_ai.Common.Exec.{
  Result, ok, err, Exec, pure, lift, gets, or_raise, raise_if, modify_state, atomic, atomic-keeps,
  ◌>>=◌, ◌>>◌, go_on,
}
use mathlib.Core.Path.{◌≡◌, refl}
use mathlib.Core.Bool.{Bool, true, false}
use mathlib.Core.Option.{Option, none, some}

pub record Keeps {S E A : Type 0} (P : S → Type 0) (s : S) (m : Exec S E A) : Type 0 where
  pub after : P (m s).1

module _ {S E A : Type 0} {P : S → Type 0} {s : S} (h : P s) where
  pub pure-Keeps : (a : A) → Keeps {E = E} P s (pure a)
  unfolding pure
  pure-Keeps a = record { after = h }

  -- a body that is rolled back leaves the state of before
  pub atomic-Keeps_of : {m : Exec S E A} → Keeps P s m → Keeps P s (atomic m)
  atomic-Keeps_of {m} k = record { after = atomic-keeps P m s h k.after }

module _ {S E A B : Type 0} {P : S → Type 0} where
  go_on-Keeps :
      (r : Result E A) (s' : S) (f : A → Exec S E B)
      → P s'
      → ((a : A) → r ≡ ok a → Keeps P s' (f a))
      → P (go_on r s' f).1
  go_on-Keeps (ok a) s' f h k = (k a refl).after
  go_on-Keeps (err e) s' f h k = h

module _ {S E A B : Type 0} {P : S → Type 0} {s : S} where
  pub gets-Keeps : (g : S → A) (f : A → Exec S E B) → Keeps P s (f (g s)) → Keeps P s (gets g >>= f)
  unfolding ◌>>=◌
  gets-Keeps g f k = record { after = k.after }

  -- any first action
  pub bind-Keeps :
      (m : Exec S E A) (f : A → Exec S E B)
      → Keeps P s m
      → ((a : A) → (m s).0 ≡ ok a → Keeps P (m s).1 (f a))
      → Keeps P s (m >>= f)
  unfolding ◌>>=◌
  bind-Keeps m f h k = record { after = go_on-Keeps (m s).0 (m s).1 f h.after k }

module _ {S E A B : Type 0} {P : S → Type 0} {s : S} (h : P s) where
  pub lift-Keeps :
      (r : Result E A) (f : A → Exec S E B)
      → ((a : A) → r ≡ ok a → Keeps P s (f a))
      → Keeps P s (lift r >>= f)
  unfolding ◌>>=◌
  lift-Keeps (ok a) f k = record { after = (k a refl).after }
  lift-Keeps (err e) f k = record { after = h }

  pub or_raise-Keeps :
      (o : Option A) (e : E) (f : A → Exec S E B)
      → ((a : A) → o ≡ some a → Keeps P s (f a))
      → Keeps P s (or_raise o e >>= f)
  unfolding ◌>>=◌
  or_raise-Keeps none e f k = record { after = h }
  or_raise-Keeps (some a) e f k = record { after = (k a refl).after }

module _ {S E B : Type 0} {P : S → Type 0} {s : S} where
  pub raise_if-Keeps :
      (c : Bool) (e : E) (m : Exec S E B)
      → P s
      → (c ≡ false → Keeps P s m)
      → Keeps P s (raise_if c e >> m)
  unfolding ◌>>=◌
  raise_if-Keeps true e m h k = record { after = h }
  raise_if-Keeps false e m h k = record { after = (k refl).after }

  pub modify_state-Keeps :
      (g : S → S) (m : Exec S E B) → Keeps P (g s) m → Keeps P s (modify_state g >> m)
  unfolding ◌>>=◌
  modify_state-Keeps g m k = record { after = k.after }

  pub if-Keeps :
      {m n : Exec S E B} (c : Bool)
      → (c ≡ true → Keeps P s m)
      → (c ≡ false → Keeps P s n)
      → Keeps P s (if c then m else n)
  if-Keeps true k l = k refl
  if-Keeps false k l = l refl

  -- both branches keep the property, whichever is taken
  pub if-Keeps_split :
      {m n : Exec S E B} (c : Bool) → Keeps P s m → Keeps P s n → Keeps P s (if c then m else n)
  if-Keeps_split true k l = k
  if-Keeps_split false k l = l

module _ {S E : Type 0} {P : S → Type 0} {s : S} where
  pub modify_state-Keeps_end : (g : S → S) → P (g s) → Keeps {E = E} P s (modify_state g)
  unfolding modify_state
  modify_state-Keeps_end g h = record { after = h }
