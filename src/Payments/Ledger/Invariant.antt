-- ===== src/Payments/Ledger/Invariant.antt =====
-- The writes that the service makes, as rules: a property of the tables that the rules keep is kept
-- by every method. A row is written only while it is not completed.
use dutchkem_trading_ai.Payments.Ledger.Rows.{
  find_id-save_row, HasUniqueIds-save_row, find_id-none, credit-IsBalanced, save-IsBalanced,
  debit-IsBalanced, insert_row-IsBalanced,
}
use dutchkem_trading_ai.Payments.Ledger.{entry, find_id, HasNoId, IsBalanced, HasUniqueIds}
use dutchkem_trading_ai.Payments.Tables.{is_completed, add_balance, save, Transaction, Db}
use dutchkem_trading_ai.Payments.Gateways.{insert_row}
use dutchkem_trading_ai.Common.Int.{◌+ℤ◌, pos, ℤ}
use dutchkem_trading_ai.Common.{false, ◌==◌, if◌then◌else◌, arith, true, some, ◌≡◌, ℕ}

pub record IsInvariant (P : Db → Type 0) : Type 0 where
  pub keys : {db : Db} → P db → HasUniqueIds db.transactions
  -- a new row without an entry
  pub opened :
      {db : Db} (t : Transaction)
      → P db
      → HasNoId t.id db.transactions
      → ((u : ℕ) → entry u t ≡ pos 0)
      → P (insert_row t db)
  -- a new row and a payment that agree
  pub debited :
      {db : Db} (t : Transaction) (user : ℕ) (amount : ℤ)
      → P db
      → HasNoId t.id db.transactions
      → ((u : ℕ) → entry u t ≡ (if u == user then amount else pos 0))
      → P (add_balance user amount (insert_row t db))
  -- a write that leaves the row's entries as they were
  pub rewritten :
      {db : Db} (t : Transaction) {r : Transaction}
      → P db
      → find_id t.id db.transactions ≡ some r
      → is_completed r.status ≡ false
      → ((u : ℕ) → entry u t ≡ entry u r)
      → P (save t db)
  -- a write and a payment that agree
  pub paid :
      {db : Db} (t : Transaction) (user : ℕ) (amount : ℤ) {r : Transaction}
      → P db
      → find_id t.id db.transactions ≡ some r
      → is_completed r.status ≡ false
      → ((u : ℕ) → entry u t ≡ entry u r +ℤ (if u == user then amount else pos 0))
      → P (add_balance user amount (save t db))

pub IsBalanced-IsInvariant : (opening : ℕ → ℤ) → IsInvariant (IsBalanced opening)
IsBalanced-IsInvariant opening = record {
  keys = λ h. h.keys;
  opened = λ {db} t h fresh nothing. insert_row-IsBalanced opening db t fresh nothing h;
  debited =
      λ {db} t user amount h fresh more. debit-IsBalanced opening db t user amount fresh more h;
  rewritten = λ {db} t {r} h found open_yet same. save-IsBalanced opening db t found same h;
  paid = λ {db} t user amount {r} h found open_yet more.
      credit-IsBalanced opening db t user amount found more h;
}

-- A completed row stays as it is, and keys stay unique.
pub record IsFinal (i : ℕ) (r : Transaction) (db : Db) : Type 0 where
  pub keys : HasUniqueIds db.transactions
  pub stays : find_id i db.transactions ≡ some r

pub IsFinal-IsInvariant :
    (i : ℕ) (r : Transaction) → is_completed r.status ≡ true → IsInvariant (IsFinal i r)
unfolding insert_row save add_balance find_id
IsFinal-IsInvariant i r done = record {
  keys = λ h. h.keys;
  opened = λ {db} t h fresh nothing. record {
    keys = (fresh, h.keys);
    stays = ground (arith, find_id-none t.id db.transactions fresh, h.stays);
  };
  debited = λ {db} t user amount h fresh more. record {
    keys = (fresh, h.keys);
    stays = ground (arith, find_id-none t.id db.transactions fresh, h.stays);
  };
  rewritten = λ {db} t {r = old} h found open_yet same. record {
    keys = HasUniqueIds-save_row t db.transactions h.keys;
    stays = ground (arith, find_id-save_row i t db.transactions, h.stays, done, open_yet, found);
  };
  paid = λ {db} t user amount {r = old} h found open_yet more. record {
    keys = HasUniqueIds-save_row t db.transactions h.keys;
    stays = ground (arith, find_id-save_row i t db.transactions, h.stays, done, open_yet, found);
  };
}
