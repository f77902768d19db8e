-- ===== src/Payments/Hazards.antt =====
-- Where the code falls short: a reference that is not known, withdrawals that fail, requests that
-- read a balance or a row before another request changes it.
use dutchkem_trading_ai.Payments.Ledger.Rows.{find_id-save_row}
use dutchkem_trading_ai.Payments.Ledger.{find_id}
use dutchkem_trading_ai.Payments.Korapay.{verify_transaction, HttpReply}
use dutchkem_trading_ai.Payments.Withdrawals.{create_withdrawal-accepted, create_withdrawal_accepts}
use dutchkem_trading_ai.Payments.Deposit.{
  outcome, reply_section, complete, mark_failed, paid, new_channel,
}
use dutchkem_trading_ai.Payments.Withdrawal.{has_verified_kyc, create_withdrawal}
use dutchkem_trading_ai.Payments.Reconcile.{
  reconcile_one, is_pending_deposit, reconcile_rows, filter_rows, reconcile_as, Counts,
}
use dutchkem_trading_ai.Common.Int.{◌≤ℤ◌, parts_of_eq, int_laws, pos, ◌+ℤ◌, ◌<ℤ◌, ℤ}
use dutchkem_trading_ai.Payments.Tables.{
  save_row, is_processing, completed, PaymentGateway, add_balance, save, is_cancelled, is_completed,
  is_withdrawal, is_deposit, does_not_exist, has_ref, User, Transaction, Db,
}
use dutchkem_trading_ai.Payments.Json.{Json, Fields}
use dutchkem_trading_ai.Common.Exec.{atomic-then_pure, ok, err, ◌>>=◌, atomic}
use dutchkem_trading_ai.Payments.Webhook.{
  on_success, on_failed, dispatch, processed, handle_webhook, get_unique, WebhookEvent,
}
use dutchkem_trading_ai.Payments.Gateways.{exceeds, choose_gateway, Call}
use dutchkem_trading_ai.Common.{
  ◌+◌, some, Bool, eq_iff, true, refl, arith, [], false, Option, ◌≡◌, ◌∷◌, str_eq, List, ℕ, String,
}

abbrev HasNoRef : String → List Transaction → Type 0
HasNoRef reference [] = Unit
HasNoRef reference (t ∷ ts) = (str_eq t.korapay_ref reference ≡ false) × HasNoRef reference ts

get_unique-none :
    (reference : String) (ts : List Transaction)
    → HasNoRef reference ts
    → get_unique (has_ref reference) ts ≡ err does_not_exist
unfolding get_unique has_ref
get_unique-none reference [] h = refl
get_unique-none reference (t ∷ ts) h = ground (arith, get_unique-none reference ts h.1)

-- A webhook with a reference that no row has raises `DoesNotExist`, and changes nothing: the branch
-- that would answer "Transaction not found" is never reached.
pub handle_webhook_unknown :
    (now : ℕ) (event : WebhookEvent) (db : Db)
    → str_eq event.reference "" ≡ false
    → HasNoRef event.reference db.transactions
    → handle_webhook now event db ≡ (err does_not_exist, db)
unfolding handle_webhook atomic ◌>>=◌
handle_webhook_unknown now event db named unknown =
    ground (arith, get_unique-none event.reference db.transactions unknown)

-- A webhook for an open row does what `dispatch` does.
handle_webhook_open :
    (now : ℕ) (event : WebhookEvent) (db db' : Db) {t : Transaction}
    → str_eq event.reference "" ≡ false
    → get_unique (has_ref event.reference) db.transactions ≡ ok t
    → is_completed t.status ≡ false
    → dispatch now event t db ≡ (ok tt, db')
    → handle_webhook now event db ≡ (ok processed, db')
unfolding handle_webhook atomic ◌>>=◌
handle_webhook_open now event db db' {t} named found open_yet done =
    rw named (ground (arith, atomic-then_pure (dispatch now event t) processed db db' done))

is_failed_event :
    (s : String)
    → s ≡ "payment.failed"
    → (str_eq s "payment.success" ≡ false) × (str_eq s "payment.failed" ≡ true)
is_failed_event s e = rw e (refl, refl)

on_failed_open :
    (now : ℕ) (event : WebhookEvent) (db : Db) (t : Transaction)
    → event.event_type ≡ "payment.failed"
    → is_completed t.status ≡ false
    → is_cancelled t.status ≡ false
    → dispatch now event t db ≡ (ok tt, save (mark_failed event.raw t) db)
unfolding dispatch on_failed ◌>>=◌ mark_failed
on_failed_open now event db t says open_yet kept =
    let (no_success, failure) = is_failed_event event.event_type says in
    rw (no_success, failure, open_yet, kept)

on_success_open :
    (now : ℕ) (event : WebhookEvent) (db : Db) (t : Transaction) {channel : Json}
    → event.event_type ≡ "payment.success"
    → is_completed t.status ≡ false
    → is_deposit t.transaction_type ≡ true
    → new_channel event.raw t.channel ≡ ok channel
    → dispatch now event t db
      ≡ (ok tt, add_balance t.user t.net_amount (save (complete now channel event.raw t) db))
unfolding dispatch on_success ◌>>=◌
on_success_open now event db t says open_yet dep on =
    let success : str_eq event.event_type "payment.success" ≡ true = (eq_iff _ _).1 says in
    rw (success, open_yet, on, dep)

-- A webhook that says that an open withdrawal failed marks it failed, and returns its amount to
-- nobody: every balance stays as the withdrawal left it.
pub failed_withdrawal_keeps_debit :
    (now : ℕ) (event : WebhookEvent) (db : Db) {t : Transaction}
    → str_eq event.reference "" ≡ false
    → event.event_type ≡ "payment.failed"
    → get_unique (has_ref event.reference) db.transactions ≡ ok t
    → is_withdrawal t.transaction_type ≡ true
    → is_completed t.status ≡ false
    → is_cancelled t.status ≡ false
    → (handle_webhook now event db ≡ (ok processed, save (mark_failed event.raw t) db))
      × ((u : ℕ) → (handle_webhook now event db).1.balances u ≡ db.balances u)
unfolding save
failed_withdrawal_keeps_debit now event db {t} named says found w open_yet kept =
    rw
      (handle_webhook_open now event db _ {t = t} named found open_yet
        (on_failed_open now event db t says open_yet kept))
      (refl, λ u. refl)

-- Two withdrawals whose requests loaded the same balance, each within the limits of the gateway and
-- covered by that balance alone, are both accepted, though the sum is not covered, and the balance
-- ends below zero.
pub stale_withdrawals_overdraw :
    (c c' : Call) (user : User) (amount amount' : ℤ) (currency : String) (gateway_id : Option ℕ)
    (channel : String) (db : Db) (g : PaymentGateway)
    → user.balance ≡ db.balances user.id
    → has_verified_kyc user.id db ≡ true
    → choose_gateway gateway_id db ≡ some g
    → g.min_withdrawal ≤ℤ amount
    → g.min_withdrawal ≤ℤ amount'
    → exceeds g.max_withdrawal amount ≡ false
    → exceeds g.max_withdrawal amount' ≡ false
    → amount ≤ℤ user.balance
    → amount' ≤ℤ user.balance
    → user.balance <ℤ amount +ℤ amount'
    → let first = create_withdrawal c user amount currency gateway_id channel db in
      let second = create_withdrawal c' user amount' currency gateway_id channel first.1 in
      ((t : Transaction) × (first.0 ≡ ok t))
      × ((t : Transaction) × (second.0 ≡ ok t))
      × (second.1.balances user.id <ℤ pos 0)
stale_withdrawals_overdraw c c' user amount amount' currency gateway_id channel db g fresh kyc found
      low low' high high' covered covered' short =
    let db' = (create_withdrawal c user amount currency gateway_id channel db).1 in
    let ((t, e), kyc', found') =
      create_withdrawal-accepted c user amount currency gateway_id channel db g kyc found low high
        covered in
    let ((t', e'), _, _) =
      create_withdrawal-accepted c' user amount' currency gateway_id channel db' g kyc' found' low'
        high' covered' in
    let (_, _, _, _, once) =
      create_withdrawal_accepts c user amount currency gateway_id channel db {t = t} e in
    let (_, _, _, _, twice) =
      create_withdrawal_accepts c' user amount' currency gateway_id channel db' {t = t'} e' in
    (
      (t, e),
      (t', e'),
      grind (int_laws, parts_of_eq fresh, parts_of_eq (once user.id), parts_of_eq (twice user.id)),
    )

-- The rows of the query, when they are one.
pending_row :
    (p : Transaction → Bool) (t : Transaction) (rest ts : List Transaction)
    → filter_rows p ts ≡ t ∷ rest
    → p t ≡ true
unfolding filter_rows
pending_row p t rest [] e = ground arith
pending_row p t rest (x ∷ xs) e = ground (arith, pending_row p t rest xs)

reconcile_rows-paid :
    (now : ℕ) (send : String → ℕ → HttpReply) (t : Transaction) (reply section : Fields)
    (n : Counts) (db : Db)
    → verify_transaction (send t.korapay_ref) ≡ ok reply
    → reply_section reply ≡ ok section
    → outcome reply section ≡ paid
    → reconcile_rows now send (t ∷ []) n db ≡ (
      ok (record n { reconciled = n.reconciled + 1 }),
      add_balance t.user t.net_amount (
          save
            (record t { status = completed; completed_at = some now; gateway_response = reply })
            db),
    )
unfolding reconcile_rows reconcile_one reconcile_as ◌>>=◌
reconcile_rows-paid now send t reply section n db answered sectioned o = ground arith

-- The loop of `reconcile_transactions` over the rows of its query, where one deposit is pending, which
-- a webhook completes and credits between the query and the loop, and the gateway says is paid: the
-- loop completes the row again, with its own time and reply in place of the webhook's, counts it as
-- reconciled, and credits it again, so that its user's balance grows by twice its net amount.
pub stale_reconcile_credits_twice :
    (now now' cutoff : ℕ) (event : WebhookEvent) (send : String → ℕ → HttpReply)
    (reply section : Fields) (n : Counts) (db : Db) {t : Transaction} {channel : Json}
    → filter_rows (is_pending_deposit cutoff) db.transactions ≡ t ∷ []
    → str_eq event.reference "" ≡ false
    → event.event_type ≡ "payment.success"
    → get_unique (has_ref event.reference) db.transactions ≡ ok t
    → new_channel event.raw t.channel ≡ ok channel
    → verify_transaction (send t.korapay_ref) ≡ ok reply
    → reply_section reply ≡ ok section
    → outcome reply section ≡ paid
    → let hooked = (handle_webhook now event db).1 in
      let rows = filter_rows (is_pending_deposit cutoff) db.transactions in
      let (r, after) = reconcile_rows now' send rows n hooked in
      (find_id t.id hooked.transactions ≡ some (complete now channel event.raw t))
      × (r ≡ ok (record n { reconciled = n.reconciled + 1 }))
      × (find_id t.id after.transactions
          ≡ some
              (record t { status = completed; completed_at = some now'; gateway_response = reply }))
      × (after.balances t.user ≡ db.balances t.user +ℤ t.net_amount +ℤ t.net_amount)
unfolding save add_balance complete
stale_reconcile_credits_twice now now' cutoff event send reply section n db {t} {channel} one named
      says found on answered sectioned o =
    let pending = pending_row (is_pending_deposit cutoff) t [] db.transactions one in
    let dep : is_deposit t.transaction_type ≡ true =
      unfold is_pending_deposit in ground (arith, pending) in
    let open_yet : is_completed t.status ≡ false =
      unfold is_pending_deposit is_processing is_completed in ground (arith, pending) in
    let w =
      handle_webhook_open now event db _ {t = t} named found open_yet
        (on_success_open now event db t says open_yet dep on) in
    rw (w, one, reconcile_rows-paid now' send t reply section n _ answered sectioned o)
      (
        ground (arith, find_id-save_row t.id (complete now channel event.raw t) db.transactions),
        refl,
        ground (
          arith,
          find_id-save_row t.id
              (record t { status = completed; completed_at = some now'; gateway_response = reply })
              (save_row (complete now channel event.raw t) db.transactions),
        ),
        ground arith,
      )
