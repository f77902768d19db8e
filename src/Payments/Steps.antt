-- ===== src/Payments/Steps.antt =====
-- The requests that reach `PaymentService`, one at a time, as steps between states of the tables. A
-- new row gets a key that no row has (`uuid4`).
use dutchkem_trading_ai.Payments.Reconcile.{reconcile_transactions}
use dutchkem_trading_ai.Payments.Korapay.{HttpReply}
use dutchkem_trading_ai.Payments.Webhook.{handle_webhook, WebhookEvent}
use dutchkem_trading_ai.Payments.Withdrawal.{create_withdrawal}
use dutchkem_trading_ai.Payments.Ledger.Reconciliation.{reconcile_transactions-Keeps}
use dutchkem_trading_ai.Payments.Ledger.Requests.{handle_webhook-Keeps}
use dutchkem_trading_ai.Payments.Deposit.{verify_deposit, create_deposit}
use dutchkem_trading_ai.Payments.Ledger.Methods.{
  create_withdrawal-Keeps, verify_deposit-Keeps, create_deposit-Keeps,
}
use dutchkem_trading_ai.Payments.Ledger.Invariant.{
  IsFinal-IsInvariant, IsBalanced-IsInvariant, IsInvariant,
}
use dutchkem_trading_ai.Payments.Ledger.{entries, HasNoId, find_id, IsBalanced, HasUniqueIds}
use dutchkem_trading_ai.Payments.Gateways.{Call}
use dutchkem_trading_ai.Payments.Tables.{is_completed, User, Transaction, Db}
use dutchkem_trading_ai.Common.Int.{◌+ℤ◌, ℤ}
use dutchkem_trading_ai.Common.{true, some, Option, ◌≡◌, ℕ, String}

pub data Step : Db → Db → Type 0 where
  create_deposit_step :
      (db : Db) (c : Call) (user : User) (amount : ℤ) (currency : String) (gateway_id : Option ℕ)
      (channel redirect_url : String)
      → HasNoId c.id db.transactions
      → Step db (create_deposit c user amount currency gateway_id channel redirect_url db).1
  verify_deposit_step :
      (db : Db) (c : Call) (reference : String) → Step db (verify_deposit c reference db).1
  create_withdrawal_step :
      (db : Db) (c : Call) (user : User) (amount : ℤ) (currency : String) (gateway_id : Option ℕ)
      (channel : String)
      → HasNoId c.id db.transactions
      → Step db (create_withdrawal c user amount currency gateway_id channel db).1
  handle_webhook_step :
      (db : Db) (now : ℕ) (event : WebhookEvent) → Step db (handle_webhook now event db).1
  reconcile_step :
      (db : Db) (now cutoff : ℕ) (send : String → ℕ → HttpReply)
      → Step db (reconcile_transactions now cutoff send db).1

pub data Reach (s : Db) : Db → Type 0 where
  here : Reach s s
  next : {t u : Db} → Reach s t → Step t u → Reach s u

Step-Keeps : {P : Db → Type 0} → IsInvariant P → {s t : Db} → Step s t → P s → P t
Step-Keeps inv (create_deposit_step db c user amount currency g channel url fresh) h =
    (create_deposit-Keeps inv db c user amount currency g channel url h fresh).after
Step-Keeps inv (verify_deposit_step db c reference) h =
    (verify_deposit-Keeps inv db c reference h).after
Step-Keeps inv (create_withdrawal_step db c user amount currency g channel fresh) h =
    (create_withdrawal-Keeps inv db c user amount currency g channel h fresh).after
Step-Keeps inv (handle_webhook_step db now event) h =
    (handle_webhook-Keeps inv db now event h).after
Step-Keeps inv (reconcile_step db now cutoff send) h =
    (reconcile_transactions-Keeps inv now send db cutoff h).after

pub Reach-keeps : {P : Db → Type 0} → IsInvariant P → {s t : Db} → P s → Reach s t → P t
Reach-keeps inv h here = h
Reach-keeps inv h (next r st) = Step-Keeps inv st (Reach-keeps inv h r)

-- After any sequence of requests, each run alone and each returning or raising, every user's balance
-- is the opening balance plus the net amounts of the user's completed deposits, less the amounts of
-- the user's withdrawals in any status, if that was so at the start with unique row keys.
pub Reach-balances :
    (opening : ℕ → ℤ) {s t : Db}
    → IsBalanced opening s
    → Reach s t
    → (u : ℕ) → t.balances u ≡ opening u +ℤ entries u t.transactions
Reach-balances opening h r u = (Reach-keeps (IsBalanced-IsInvariant opening) h r).totals u

-- A transaction that is completed is never changed again, by any sequence of requests that run one
-- at a time: the row that its key finds stays the same in every field.
pub Reach-completed_row :
    (i : ℕ) (row : Transaction) {s t : Db}
    → HasUniqueIds s.transactions
    → find_id i s.transactions ≡ some row
    → is_completed row.status ≡ true
    → Reach s t
    → find_id i t.transactions ≡ some row
Reach-completed_row i row keys found done r =
    (Reach-keeps (IsFinal-IsInvariant i row done) (record { keys = keys; stays = found }) r).stays
