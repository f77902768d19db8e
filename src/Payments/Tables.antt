-- ===== src/Payments/Tables.antt =====
-- payments/models.py and the columns of accounts.User that payments change: the rows, the tables
-- and the queries on them. Money is in whole cents, percentages are in hundredths of a percent.
use dutchkem_trading_ai.Common.{
  ℕ, String, Bool, true, false, Option, List, [], ◌∷◌, ◌&&◌, ◌==◌, str_eq, if◌then◌else◌,
  find_first,
}
use dutchkem_trading_ai.Common.Int.{ℤ, ◌+ℤ◌}
use dutchkem_trading_ai.Payments.Json.{Json, Fields}

pub data TransactionType : Type 0 where
  deposit withdrawal trading_profit trading_loss commission swap bonus refund : TransactionType

pub data TransactionStatus : Type 0 where
  pending processing completed failed cancelled refunded : TransactionStatus

unfoldable pub is_completed : TransactionStatus → Bool
is_completed completed = true
is_completed _ = false

unfoldable pub is_processing : TransactionStatus → Bool
is_processing processing = true
is_processing _ = false

unfoldable pub is_cancelled : TransactionStatus → Bool
is_cancelled cancelled = true
is_cancelled _ = false

unfoldable pub is_deposit : TransactionType → Bool
is_deposit deposit = true
is_deposit _ = false

unfoldable pub is_withdrawal : TransactionType → Bool
is_withdrawal withdrawal = true
is_withdrawal _ = false

pub record Transaction : Type 0 where
  pub id : ℕ
  pub user : ℕ
  pub transaction_type : TransactionType
  pub amount : ℤ
  pub currency : String
  pub status : TransactionStatus
  pub gateway : ℕ
  pub korapay_ref : String
  pub channel : Json
  pub gateway_response : Fields
  pub fee : ℤ
  pub net_amount : ℤ
  pub metadata : Fields
  pub created_at : ℕ
  pub completed_at : Option ℕ

pub record PaymentGateway : Type 0 where
  pub id : ℕ
  pub name : String
  pub is_active : Bool
  pub min_deposit : ℤ
  pub max_deposit : Option ℤ
  pub min_withdrawal : ℤ
  pub max_withdrawal : Option ℤ
  pub deposit_fee_percent : ℤ
  pub withdrawal_fee_percent : ℤ

pub data KycStatus : Type 0 where
  not_started kyc_pending verified rejected : KycStatus

unfoldable pub is_verified : KycStatus → Bool
is_verified verified = true
is_verified _ = false

pub record KycVerification : Type 0 where
  pub user : ℕ
  pub status : KycStatus

-- The user object of a request: its balance is what the row held when the request loaded it.
pub record User : Type 0 where
  pub id : ℕ
  pub balance : ℤ

-- The transactions stand newest first (`ordering = ["-created_at"]`); `balances` is the column of
-- the user table, by user id.
pub record Db : Type 0 where
  pub transactions : List Transaction
  pub balances : ℕ → ℤ
  pub gateways : List PaymentGateway
  pub kyc : List KycVerification

-- `tx.save()`: an UPDATE by primary key, and an INSERT where no row has that key.
unfoldable pub save_row : Transaction → List Transaction → List Transaction
save_row t [] = t ∷ []
save_row t (r ∷ rs) = if r.id == t.id then t ∷ rs else r ∷ save_row t rs

unfoldable pub save : Transaction → Db → Db
unfolding save_row
save t db = record db { transactions = save_row t db.transactions }

-- `User.objects.filter(id=user).update(balance=F("balance") + amount)`
unfoldable pub add_balance : ℕ → ℤ → Db → Db
add_balance user amount db = record db {
  balances = λ u. if u == user then db.balances u +ℤ amount else db.balances u;
}

-- the filters of the queries on transactions
unfoldable pub is_deposit_with_ref : String → Transaction → Bool
unfolding is_deposit
is_deposit_with_ref reference t = str_eq t.korapay_ref reference && is_deposit t.transaction_type

unfoldable pub has_ref : String → Transaction → Bool
has_ref reference t = str_eq t.korapay_ref reference

unfoldable pub find_gateway : (PaymentGateway → Bool) → Db → Option PaymentGateway
unfolding find_first
find_gateway p db = find_first (λ g. p g && g.is_active) db.gateways

-- What a call may raise: the `ValueError`s of payments/services.py by their messages, the
-- exceptions of a query that wants one row, `.get` on what is no dict, and a null in a column that
-- takes none.
pub data Error : Type 0 where
  unsupported_currency no_active_gateway minimum_deposit maximum_deposit : Error
  kyc_required minimum_withdrawal maximum_withdrawal insufficient_balance : Error
  does_not_exist multiple_objects attribute_error integrity_error type_error : Error
  -- a request whose body does not parse
  parse_error : Error
