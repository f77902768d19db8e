-- ===== src/Payments/Ledger/Reconciliation.antt =====
-- The reconciliation keeps every invariant of the writes when it runs alone.
use dutchkem_trading_ai.Payments.Ledger.Entries.{entry-mark_failed, entry-complete}
use dutchkem_trading_ai.Payments.Json.{Fields}
use dutchkem_trading_ai.Payments.Deposit.{
  undecided, refused, paid, outcome, reply_section, Outcome, mark_failed, complete,
}
use dutchkem_trading_ai.Common.Keeps.{bind-Keeps, pure-Keeps, gets-Keeps, Keeps}
use dutchkem_trading_ai.Common.Exec.{Result-cases, ◌>>=◌}
use dutchkem_trading_ai.Payments.Ledger.Rows.{find_id-save_row}
use dutchkem_trading_ai.Payments.Korapay.{verify_transaction, HttpReply}
use dutchkem_trading_ai.Payments.Ledger.Invariant.{IsInvariant}
use dutchkem_trading_ai.Payments.Tables.{
  save, add_balance, is_deposit, is_completed, save_row, is_processing, Transaction, Db,
}
use dutchkem_trading_ai.Payments.Reconcile.{
  Counts, reconcile_transactions, reconcile_rows, reconcile_one, reconcile_as, is_pending_deposit,
  filter_rows,
}
use dutchkem_trading_ai.Payments.Ledger.{HasUniqueIds, HasNoId, find_id}
use dutchkem_trading_ai.Common.{
  inl, inr, true, false, some, [], ◌≡◌, arith, ◌∷◌, Bool, List, ℕ, String,
}

-- Rows that stand in the table as they are, are no completed deposits, and have keys of their own.
abbrev AreOpen : List Transaction → List Transaction → Type 0
AreOpen [] table = Unit
AreOpen (t ∷ ts) table =
    (find_id t.id table ≡ some t)
    × (is_completed t.status ≡ false)
    × (is_deposit t.transaction_type ≡ true)
    × HasNoId t.id ts
    × AreOpen ts table

HasNoId-filter_rows :
    (i : ℕ) (p : Transaction → Bool) (ts : List Transaction)
    → HasNoId i ts
    → HasNoId i (filter_rows p ts)
unfolding filter_rows
HasNoId-filter_rows i p [] h = tt
HasNoId-filter_rows i p (t ∷ ts) h = ground (arith, HasNoId-filter_rows i p ts h.1)

AreOpen-cons :
    (t : Transaction) (rows table : List Transaction)
    → HasNoId t.id rows
    → AreOpen rows table
    → AreOpen rows (t ∷ table)
unfolding find_id
AreOpen-cons t [] table n h = tt
AreOpen-cons t (r ∷ rs) table n h = ground (arith, AreOpen-cons t rs table n.1)

-- The rows of the query at the start.
AreOpen-filter_rows :
    (cutoff : ℕ) (ts : List Transaction)
    → HasUniqueIds ts
    → AreOpen (filter_rows (is_pending_deposit cutoff) ts) ts
unfolding filter_rows is_pending_deposit is_processing is_completed find_id
AreOpen-filter_rows cutoff [] h = tt
AreOpen-filter_rows cutoff (t ∷ ts) h = ground (
  arith,
  HasNoId-filter_rows t.id (is_pending_deposit cutoff) ts h.0,
  AreOpen-cons t (filter_rows (is_pending_deposit cutoff) ts) ts,
  AreOpen-filter_rows cutoff ts h.1,
)

AreOpen-save_row :
    (t : Transaction) (rows table : List Transaction)
    → HasNoId t.id rows
    → AreOpen rows table
    → AreOpen rows (save_row t table)
AreOpen-save_row t [] table n h = tt
AreOpen-save_row t (r ∷ rs) table n h =
    ground (arith, AreOpen-save_row t rs table n.1, find_id-save_row r.id t table)

module _ {P : Db → Type 0} (inv : IsInvariant P) (now : ℕ) (send : String → ℕ → HttpReply) where
  -- One row as the gateway sees it, and the rows behind it, which `rest` deals with.
  row-Keeps :
      (db : Db) (t : Transaction) (ts : List Transaction) (n : Counts) (reply : Fields)
      (o : Outcome)
      → P db
      → AreOpen (t ∷ ts) db.transactions
      → ((db' : Db) (n' : Counts)
          → P db'
          → AreOpen ts db'.transactions
          → Keeps P db' (reconcile_rows now send ts n'))
      → Keeps P db (do n' ← reconcile_as now t reply o n; reconcile_rows now send ts n')
  unfolding reconcile_as ◌>>=◌ complete mark_failed
  row-Keeps db t ts n reply paid h (found, open_yet, dep, apart, others) rest =
      let t' = complete now t.channel reply t in
      record {
        after =
            (rest (add_balance t.user t.net_amount (save t' db)) _
              (inv.paid t' t.user t.net_amount h found open_yet
                (λ u. entry-complete now t.channel reply t u open_yet dep))
              (unfold add_balance save in
                AreOpen-save_row t' ts db.transactions apart others)).after;
      }
  row-Keeps db t ts n reply refused h (found, open_yet, dep, apart, others) rest =
      let t' = mark_failed reply t in
      record {
        after =
            (rest (save t' db) _
              (inv.rewritten t' h found open_yet (λ u. entry-mark_failed reply t u open_yet))
              (unfold save in AreOpen-save_row t' ts db.transactions apart others)).after;
      }
  row-Keeps db t ts n reply undecided h (found, open_yet, dep, apart, others) rest = record {
    after = (rest db n h others).after;
  }

  one-Keeps :
      (db : Db) (t : Transaction) (ts : List Transaction) (n : Counts)
      → P db
      → AreOpen (t ∷ ts) db.transactions
      → ((db' : Db) (n' : Counts)
          → P db'
          → AreOpen ts db'.transactions
          → Keeps P db' (reconcile_rows now send ts n'))
      → Keeps P db (do n' ← reconcile_one now send t n; reconcile_rows now send ts n')
  unfolding reconcile_one ◌>>=◌
  one-Keeps db t ts n h o rest = elim (Result-cases (verify_transaction (send t.korapay_ref))) [
    | inr (x, e) ↦ record { after = rw e h }
    | inl (reply, e) ↦ elim (Result-cases (reply_section reply)) [
      | inr (x, e') ↦ record { after = rw (e, e') h }
      | inl (section, e') ↦ record {
        after = rw (e, e') ((row-Keeps db t ts n reply (outcome reply section) h o rest).after);
      }
    ]
  ]

  rows-Keeps :
      (ts : List Transaction) (db : Db) (n : Counts)
      → P db
      → AreOpen ts db.transactions
      → Keeps P db (reconcile_rows now send ts n)
  unfolding reconcile_rows
  rows-Keeps [] db n h o = pure-Keeps h n
  rows-Keeps (t ∷ ts) db n h o =
      one-Keeps db t ts n h o (λ db' n' h' o'. rows-Keeps ts db' n' h' o')

  pub reconcile_transactions-Keeps :
      (db : Db) (cutoff : ℕ) → P db → Keeps P db (reconcile_transactions now cutoff send)
  unfolding reconcile_transactions
  reconcile_transactions-Keeps db cutoff h =
      let k =
        rows-Keeps (filter_rows (is_pending_deposit cutoff) db.transactions) db
          (record { reconciled = 0; failed = 0 }) h
          (AreOpen-filter_rows cutoff db.transactions (inv.keys h)) in
      gets-Keeps _ _ (bind-Keeps _ _ k λ _ _. pure-Keeps k.after _)
