-- ===== src/Common/Lists.antt =====
-- Lists measured by native numbers, predicates over their entries, and Python's `deque(maxlen=n)`.
use Prim.Native.Nat.{ℕ, zero, suc, ◌+◌, ◌-◌, ◌≤◌}
use mathlib.Core.Path.{◌≡◌}
use mathlib.Core.Logic.{◌⊎◌}
use mathlib.Core.Bool.{Bool}
use mathlib.Core.Option.{Option, none, some}
use mathlib.Core.List.{List, [], ◌∷◌, ◌++◌}
use native.Mathlib.Omega.{arith}
use dutchkem_trading_ai.Common.Tests.{if◌then◌else◌}

module _ {ℓ} {A : Type ℓ} where
  abbrev pub length : List A → ℕ
  length [] = 0
  length (x ∷ xs) = suc (length xs)

  abbrev pub drop : ℕ → List A → List A
  drop zero xs = xs
  drop (suc n) [] = []
  drop (suc n) (x ∷ xs) = drop n xs

  pub length-append : (xs ys : List A) → length (xs ++ ys) ≡ length xs + length ys
  length-append [] ys = omega arith
  length-append (x ∷ xs) ys = omega (arith, length-append xs ys)

  pub length-drop : (n : ℕ) (xs : List A) → length (drop n xs) ≡ length xs - n
  length-drop zero xs = omega arith
  length-drop (suc n) [] = omega arith
  length-drop (suc n) (x ∷ xs) = omega (arith, length-drop n xs)

  -- `d.append(x)` for `d = deque(maxlen=cap)`: the oldest entries leave at the left.
  unfoldable pub push_bounded : ℕ → List A → A → List A
  push_bounded cap d x = drop (length d + 1 - cap) (d ++ x ∷ [])

  pub length-push_bounded :
      (cap : ℕ) (d : List A) (x : A) → length d ≤ cap → length (push_bounded cap d x) ≤ cap
  unfolding push_bounded
  length-push_bounded cap d x h =
      omega (arith, length-drop (length d + 1 - cap) (d ++ x ∷ []), length-append d (x ∷ []))

  -- The first entry that passes a test: a queryset's `.first()` behind `.filter(test)`.
  unfoldable pub find_first : (A → Bool) → List A → Option A
  find_first p [] = none
  find_first p (x ∷ xs) = if p x then some x else find_first p xs

abbrev pub All {ℓ κ} : {A : Type ℓ} → (A → Type κ) → List A → Type κ
All P [] = Unit
All P (x ∷ xs) = P x × All P xs

abbrev pub Among : {A : Type 0} → A → List A → Type 0
Among x [] = ⊥
Among x (y ∷ ys) = (x ≡ y) ⊎ Among x ys
