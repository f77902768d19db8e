-- ===== src/Payments/Reconcile.antt =====
-- payments/services.py: `reconcile_transactions`. It stands under no transaction and takes no lock:
-- its rows are those of one query at the start, and each is written back whole.
use dutchkem_trading_ai.Common.{
  ℕ, ◌+◌, String, Bool, ◌&&◌, some, List, [], ◌∷◌, leb, if◌then◌else◌, length,
}
use dutchkem_trading_ai.Common.Exec.{Exec, pure, lift, gets, modify_state, ◌>>=◌, ◌>>◌}
use dutchkem_trading_ai.Payments.Json.{Fields}
use dutchkem_trading_ai.Payments.Tables.{
  Transaction, completed, Db, Error, is_processing, is_deposit, save, add_balance,
}
use dutchkem_trading_ai.Payments.Korapay.{HttpReply, verify_transaction}
use dutchkem_trading_ai.Payments.Deposit.{
  mark_failed, reply_section, Outcome, paid, refused, undecided, outcome,
}

pub record Counts : Type 0 where
  pub reconciled : ℕ
  pub failed : ℕ

-- the rows of the query: `cutoff` is the time `days` before the call
unfoldable pub is_pending_deposit : ℕ → Transaction → Bool
unfolding is_processing is_deposit
is_pending_deposit cutoff t =
    is_processing t.status && leb cutoff t.created_at && is_deposit t.transaction_type

unfoldable pub filter_rows : (Transaction → Bool) → List Transaction → List Transaction
filter_rows p [] = []
filter_rows p (t ∷ ts) = let rest = filter_rows p ts in if p t then t ∷ rest else rest

-- The body of the loop, on the row `t` as the query returned it.
unfoldable pub reconcile_as : ℕ → Transaction → Fields → Outcome → Counts → Exec Db Error Counts
reconcile_as now t reply paid n = do
  modify_state
      (save (record t { status = completed; completed_at = some now; gateway_response = reply }))
  modify_state (add_balance t.user t.net_amount)
  pure (record n { reconciled = n.reconciled + 1 })
reconcile_as now t reply refused n = do
  modify_state (save (mark_failed reply t))
  pure (record n { failed = n.failed + 1 })
reconcile_as now t reply undecided n = pure n

unfoldable pub reconcile_one :
    ℕ → (String → ℕ → HttpReply) → Transaction → Counts → Exec Db Error Counts
reconcile_one now send t n = do
  reply ← lift (verify_transaction (send t.korapay_ref))
  section ← lift (reply_section reply)
  reconcile_as now t reply (outcome reply section) n

unfoldable pub reconcile_rows :
    ℕ → (String → ℕ → HttpReply) → List Transaction → Counts → Exec Db Error Counts
reconcile_rows now send [] n = pure n
reconcile_rows now send (t ∷ ts) n = do
  n' ← reconcile_one now send t n
  reconcile_rows now send ts n'

-- The counts, and `pending_txs.count()`, which is the length of the rows that were read.
unfoldable pub reconcile_transactions :
    ℕ → ℕ → (String → ℕ → HttpReply) → Exec Db Error (Counts × ℕ)
reconcile_transactions now cutoff send = do
  rows ← gets (λ db. filter_rows (is_pending_deposit cutoff) db.transactions)
  n ← reconcile_rows now send rows (record { reconciled = 0; failed = 0 })
  pure (n, length rows)
