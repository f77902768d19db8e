-- ===== src/Payments/Ledger.antt =====
-- The books behind payments/services.py: what the transactions of a user add up to, and when the
-- balances agree with them.
pub mod Rows
pub mod Invariant
pub mod Entries
pub mod Methods
pub mod Requests
pub mod Reconciliation
use dutchkem_trading_ai.Common.{
  ℕ, ◌≡◌, ◌≢◌, refl, Bool, true, false, Option, none, some, List, [], ◌∷◌, ◌==◌, if◌then◌else◌,
}
use dutchkem_trading_ai.Common.Int.{ℤ, pos, ◌+ℤ◌, ◌-ℤ◌}
use dutchkem_trading_ai.Payments.Tables.{
  Transaction, TransactionType, TransactionStatus, deposit, withdrawal, completed, Db,
}

-- What one row adds to its user's balance: a completed deposit its net amount, a withdrawal the
-- negative of its amount, in every status.
unfoldable pub value : TransactionType → TransactionStatus → ℤ → ℤ → ℤ
value deposit completed amount net = net
value deposit _ amount net = pos 0
value withdrawal _ amount net = pos 0 -ℤ amount
value _ _ amount net = pos 0

unfoldable pub entry : ℕ → Transaction → ℤ
entry u t = if t.user == u then value t.transaction_type t.status t.amount t.net_amount else pos 0

unfoldable pub entries : ℕ → List Transaction → ℤ
entries u [] = pos 0
entries u (t ∷ ts) = entry u t +ℤ entries u ts

-- The first row with a key.
unfoldable pub find_id : ℕ → List Transaction → Option Transaction
find_id i [] = none
find_id i (t ∷ ts) = if t.id == i then some t else find_id i ts

abbrev pub HasNoId : ℕ → List Transaction → Type 0
HasNoId i [] = Unit
HasNoId i (t ∷ ts) = (t.id ≢ i) × HasNoId i ts

-- The primary key of every row is its own.
abbrev pub HasUniqueIds : List Transaction → Type 0
HasUniqueIds [] = Unit
HasUniqueIds (t ∷ ts) = HasNoId t.id ts × HasUniqueIds ts

-- Every balance is the opening balance and the entries of the user's rows.
pub record IsBalanced (opening : ℕ → ℤ) (db : Db) : Type 0 where
  pub keys : HasUniqueIds db.transactions
  pub totals : (u : ℕ) → db.balances u ≡ opening u +ℤ entries u db.transactions
