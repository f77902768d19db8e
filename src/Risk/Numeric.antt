-- ===== src/Risk/Numeric.antt =====
-- Python's numbers as the risk models mix them: an int, a Decimal or a float, each a whole number
-- of cents here. Adding or dividing a Decimal and a float raises TypeError, comparing them does not.
use dutchkem_trading_ai.Common.Int.{neg_part, pos_part, ltb_ℤ, ◌+ℤ◌, pos, ℤ}
use dutchkem_trading_ai.Common.{◌+◌, some, none, Bool, Option}

pub data Numeric : Type 0 where
  int : ℤ → Numeric
  decimal : ℤ → Numeric
  float : ℤ → Numeric

abbrev pub cents_of : Numeric → ℤ
cents_of (int z) = z
cents_of (decimal z) = z
cents_of (float z) = z

-- The kind of `a + b` and of `a / b`: none where Python raises TypeError.
abbrev pub join : Numeric → Numeric → ℤ → Option Numeric
join (decimal _) (float _) z = none
join (float _) (decimal _) z = none
join (decimal _) _ z = some (decimal z)
join _ (decimal _) z = some (decimal z)
join (int _) (int _) z = some (int z)
join _ _ z = some (float z)

unfoldable pub add : Numeric → Numeric → Option Numeric
add a b = join a b (cents_of a +ℤ cents_of b)

abbrev pub is_positive : ℤ → Bool
is_positive z = ltb_ℤ (pos 0) z

abbrev pub is_negative : ℤ → Bool
is_negative z = ltb_ℤ z (pos 0)

-- `abs`
abbrev pub abs : ℤ → ℤ
abs z = pos (pos_part z + neg_part z)

-- what a DecimalField holds once the row is read again
abbrev pub stored : Numeric → Numeric
stored n = decimal (cents_of n)
