-- ===== src/Payments/Ledger/Rows.antt =====
-- How a write to one row of the transactions changes the keys and the totals.
use dutchkem_trading_ai.Common.{
  ℕ, ◌≡◌, ◌≢◌, refl, Bool, true, false, none, some, List, [], ◌∷◌, ◌==◌, if◌then◌else◌, find_first,
  arith, ◌∙◌,
}
use dutchkem_trading_ai.Common.Int.{ℤ, pos, ◌+ℤ◌, int_laws, parts_of_eq}
use dutchkem_trading_ai.Payments.Tables.{Transaction, Db, save_row, save, add_balance}
use dutchkem_trading_ai.Payments.Gateways.{insert_row}
use dutchkem_trading_ai.Payments.Ledger.{entry, entries, find_id, HasNoId, HasUniqueIds, IsBalanced}

pub find_id-none : (i : ℕ) (ts : List Transaction) → HasNoId i ts → find_id i ts ≡ none
unfolding find_id
find_id-none i [] h = refl
find_id-none i (t ∷ ts) h = ground (arith, find_id-none i ts h.1)

-- With unique keys, the row that a query finds is the row of its key.
pub find_id-find_first :
    (p : Transaction → Bool) (ts : List Transaction) {r : Transaction}
    → HasUniqueIds ts
    → find_first p ts ≡ some r
    → find_id r.id ts ≡ some r
unfolding find_id find_first
find_id-find_first p [] h e = cc
find_id-find_first p (t ∷ ts) {r} h e =
    ground (arith, find_id-find_first p ts {r = r} h.1, find_id-none t.id ts h.0)

HasNoId-save_row :
    (i : ℕ) (t : Transaction) (ts : List Transaction)
    → HasNoId i ts
    → t.id ≢ i
    → HasNoId i (save_row t ts)
unfolding save_row
HasNoId-save_row i t [] h n = (n, tt)
HasNoId-save_row i t (r ∷ rs) h n = ground (arith, HasNoId-save_row i t rs h.1 n)

pub HasUniqueIds-save_row :
    (t : Transaction) (ts : List Transaction) → HasUniqueIds ts → HasUniqueIds (save_row t ts)
unfolding save_row
HasUniqueIds-save_row t [] h = (tt, tt)
HasUniqueIds-save_row t (r ∷ rs) h =
    ground (arith, HasUniqueIds-save_row t rs h.1, HasNoId-save_row r.id t rs h.0)

pub find_id-save_row :
    (i : ℕ) (t : Transaction) (ts : List Transaction)
    → find_id i (save_row t ts) ≡ (if t.id == i then some t else find_id i ts)
unfolding find_id save_row
find_id-save_row i t [] = refl
find_id-save_row i t (r ∷ rs) = ground (arith, find_id-save_row i t rs)

-- A write takes the old entry out of the total and puts the new one in.
pub entries-save_row :
    (u : ℕ) (t : Transaction) (ts : List Transaction) {r : Transaction}
    → find_id t.id ts ≡ some r
    → entries u (save_row t ts) +ℤ entry u r ≡ entries u ts +ℤ entry u t
unfolding find_id save_row entries
entries-save_row u t [] e = cc
entries-save_row u t (x ∷ xs) {r} e = grind (int_laws, entries-save_row u t xs {r = r})

-- A payment to one user, read as a change of every user's balance.
if-add : (c : Bool) (b a : ℤ) → (if c then b +ℤ a else b) ≡ b +ℤ (if c then a else pos 0)
if-add true b a = refl
if-add false b a = omega int_laws

-- The totals follow when the balance moves by what the row's entry moves by.
move : (b o e x t r a : ℤ) → b ≡ o +ℤ e → x +ℤ r ≡ e +ℤ t → t ≡ r +ℤ a → b +ℤ a ≡ o +ℤ x
move b o e x t r a p q s = omega (int_laws, parts_of_eq p, parts_of_eq q, parts_of_eq s)

-- A write that leaves the row's entries as they were.
pub save-IsBalanced :
    (opening : ℕ → ℤ) (db : Db) (t : Transaction) {r : Transaction}
    → find_id t.id db.transactions ≡ some r
    → ((u : ℕ) → entry u t ≡ entry u r)
    → IsBalanced opening db
    → IsBalanced opening (save t db)
unfolding save
save-IsBalanced opening db t {r} found same h = record {
  keys = HasUniqueIds-save_row t db.transactions h.keys;
  totals =
      λ u. grind (int_laws, h.totals u, same u, entries-save_row u t db.transactions {r = r} found);
}

-- A write and a payment that agree.
pub credit-IsBalanced :
    (opening : ℕ → ℤ) (db : Db) (t : Transaction) (user : ℕ) (amount : ℤ) {r : Transaction}
    → find_id t.id db.transactions ≡ some r
    → ((u : ℕ) → entry u t ≡ entry u r +ℤ (if u == user then amount else pos 0))
    → IsBalanced opening db
    → IsBalanced opening (add_balance user amount (save t db))
unfolding save add_balance
credit-IsBalanced opening db t user amount {r} found more h = record {
  keys = HasUniqueIds-save_row t db.transactions h.keys;
  totals = λ u.
      if-add (u == user) (db.balances u) amount
      ∙ move (db.balances u) (opening u) (entries u db.transactions) _ (entry u t) (entry u r) _
          (h.totals u) (entries-save_row u t db.transactions {r = r} found) (more u);
}

-- A new row that says nothing of a balance.
pub insert_row-IsBalanced :
    (opening : ℕ → ℤ) (db : Db) (t : Transaction)
    → HasNoId t.id db.transactions
    → ((u : ℕ) → entry u t ≡ pos 0)
    → IsBalanced opening db
    → IsBalanced opening (insert_row t db)
unfolding insert_row entries
insert_row-IsBalanced opening db t fresh none_yet h = record {
  keys = (fresh, h.keys);
  totals = λ u. grind (int_laws, h.totals u, none_yet u);
}

-- A new row and a payment that agree.
pub debit-IsBalanced :
    (opening : ℕ → ℤ) (db : Db) (t : Transaction) (user : ℕ) (amount : ℤ)
    → HasNoId t.id db.transactions
    → ((u : ℕ) → entry u t ≡ (if u == user then amount else pos 0))
    → IsBalanced opening db
    → IsBalanced opening (add_balance user amount (insert_row t db))
unfolding insert_row add_balance entries
debit-IsBalanced opening db t user amount fresh more h = record {
  keys = (fresh, h.keys);
  totals = λ u. grind (int_laws, h.totals u, more u);
}
