-- ===== src/Payments/Examples.antt =====
-- Tests of the payments model on small tables, and its theorems at inputs that meet their hypotheses.
use dutchkem_trading_ai.Trading.Books.{type_error}
use dutchkem_trading_ai.Payments.Webhooks.{handle_webhook_again}
use dutchkem_trading_ai.Payments.Reconcile.{reconcile_rows, is_pending_deposit, filter_rows}
use dutchkem_trading_ai.Payments.Hazards.{stale_reconcile_credits_twice, stale_withdrawals_overdraw}
use dutchkem_trading_ai.Payments.Withdrawals.{create_withdrawal_covered, create_withdrawal_accepts}
use dutchkem_trading_ai.Payments.Verification.{verify_deposit_again}
use dutchkem_trading_ai.Payments.Withdrawal.{new_withdrawal, has_verified_kyc, create_withdrawal}
use dutchkem_trading_ai.Payments.Webhook.{
  on_success, dispatch, already_processed, invalid_signature, webhook_view, handle_webhook,
  get_unique, WebhookEvent,
}
use dutchkem_trading_ai.Payments.Rounding.{IsRounding}
use dutchkem_trading_ai.Common.Exec.{lift, pure, err, ok, ◌>>=◌, atomic}
use dutchkem_trading_ai.Payments.Tables.{
  type_error, is_deposit, pending, has_ref, withdrawal, add_balance, save, is_deposit_with_ref,
  verified, processing, is_completed, deposit, completed, User, Transaction, PaymentGateway, Db,
}
use dutchkem_trading_ai.Payments.Steps.{
  verify_deposit_step, Reach-completed_row, here, Reach-balances, next, Reach,
}
use dutchkem_trading_ai.Payments.Ledger.{IsBalanced, value, entry, find_id, entries}
use dutchkem_trading_ai.Payments.Korapay.{
  initialize_transaction, verify_transaction, failed, body, request_with_retry, HttpReply,
}
use dutchkem_trading_ai.Payments.Json.{nil, text, obj, bool, field, Fields}
use dutchkem_trading_ai.Payments.Gateways.{insert_row, exceeds, choose_gateway, Call}
use dutchkem_trading_ai.Payments.Deposit.{
  complete, new_channel, settle, after_init, outcome, reply_section, new_deposit, verify_deposit,
  create_deposit,
}
use dutchkem_trading_ai.Common.Int.{◌<ℤ◌, ◌≤ℤ◌, ◌*ℤ◌, ◌-ℤ◌, negsuc, ◌+ℤ◌, pos, ℤ}
use dutchkem_trading_ai.Common.{
  ◌-◌, ltb, ◌+◌, String, arith, refl, none, find_first, ◌==◌, ◌/◌, some, [], ◌∷◌, true,
  if◌then◌else◌, ◌≡◌, ℕ,
}

abbrev gateway : PaymentGateway
gateway = record {
  id = 1;
  name = "KORAPAY";
  is_active = true;
  min_deposit = pos 10000;
  max_deposit = some (pos 0);
  min_withdrawal = pos 10000;
  max_withdrawal = none;
  deposit_fee_percent = pos 150;
  withdrawal_fee_percent = pos 100;
}

abbrev user : User
user = record { id = 7; balance = pos 30000 }

abbrev row : Transaction
row = record {
  id = 1;
  user = 7;
  transaction_type = deposit;
  amount = pos 20000;
  currency = "NGN";
  status = processing;
  gateway = 1;
  korapay_ref = "DK-1";
  channel = text "card";
  gateway_response = nil;
  fee = pos 300;
  net_amount = pos 19700;
  metadata = nil;
  created_at = 100;
  completed_at = none;
}

abbrev opening : ℕ → ℤ
opening u = if u == 7 then pos 30000 else pos 0

abbrev tables : Db
tables = record {
  transactions = row ∷ [];
  balances = opening;
  gateways = gateway ∷ [];
  kyc = record { user = 7; status = verified } ∷ [];
}

-- rounds down; with these inputs every amount is a whole number of cents
abbrev whole : ℤ → ℤ
whole (pos n) = pos (n / 10000)
whole (negsuc n) = negsuc (n / 10000)

abbrev success_reply : Fields
success_reply =
    field "status" (bool true) (field "data" (obj (field "status" (text "success") nil)) nil)

-- The gateway fails twice, and then says that the payment is there.
abbrev send : ℕ → HttpReply
send n = if n == 2 then body (obj success_reply) else failed "timeout"

abbrev call : Call
call = record { id = 2; reference = "DK-2"; now = 200; quantize = whole; send = send }

abbrev after_verify : Db
after_verify = (verify_deposit call "DK-1" tables).1

retries : request_with_retry send ≡ (body (obj success_reply), 1000 ∷ 2000 ∷ [])
unfolding request_with_retry
retries = refl

credited : after_verify.balances 7 ≡ pos 49700
unfolding verify_deposit atomic ◌>>=◌ find_first is_deposit_with_ref verify_transaction
    reply_section outcome settle new_channel complete save add_balance ◌+ℤ◌ is_completed
credited = refl

opened_fee :
    let (r, db) = create_deposit call user (pos 20000) "NGN" none "card" "" tables in
    (db.balances 7 ≡ pos 30000) × (entries 7 db.transactions ≡ pos 0)
unfolding create_deposit atomic ◌>>=◌ choose_gateway find_first exceeds new_deposit insert_row
    initialize_transaction after_init save entries entry value ◌+ℤ◌ ◌-ℤ◌ ◌*ℤ◌
opened_fee = (refl, refl)

tables-IsBalanced : IsBalanced opening tables
unfolding entries entry value
tables-IsBalanced = record { keys = (tt, tt); totals = λ u. unfold ◌+ℤ◌ in ground arith }

verified_once : Reach tables after_verify
verified_once = next here (verify_deposit_step tables call "DK-1")

Reach-balances_example : after_verify.balances 7 ≡ opening 7 +ℤ entries 7 after_verify.transactions
Reach-balances_example = Reach-balances opening tables-IsBalanced verified_once 7

abbrev done : Transaction
done = record row { status = completed }

abbrev settled : Db
settled = record tables { transactions = done ∷ [] }

Reach-completed_row_example :
    find_id 1 (verify_deposit call "DK-1" settled).1.transactions ≡ some done
unfolding find_id is_completed
Reach-completed_row_example =
    Reach-completed_row 1 done {s = settled} (tt, tt) refl refl
      (next here (verify_deposit_step settled call "DK-1"))

verify_deposit_again_example :
    verify_deposit call "DK-1" after_verify
    ≡ (ok (complete 200 (text "card") success_reply row), after_verify)
unfolding verify_deposit atomic ◌>>=◌ find_first is_deposit_with_ref verify_transaction
    reply_section outcome settle new_channel complete is_completed
verify_deposit_again_example =
    verify_deposit_again call call "DK-1" tables {t = complete 200 (text "card") success_reply row}
      (tt, tt) refl refl

abbrev withdrawal_row : Transaction
withdrawal_row = record {
  id = 2;
  user = 7;
  transaction_type = withdrawal;
  amount = pos 20000;
  currency = "NGN";
  status = pending;
  gateway = 1;
  korapay_ref = "DK-2";
  channel = text "card";
  gateway_response = nil;
  fee = pos 200;
  net_amount = pos 19800;
  metadata = nil;
  created_at = 200;
  completed_at = none;
}

abbrev after_withdrawal : Db
after_withdrawal = (create_withdrawal call user (pos 20000) "NGN" none "card" tables).1

withdrawn : (create_withdrawal call user (pos 20000) "NGN" none "card" tables).0 ≡ ok withdrawal_row
unfolding create_withdrawal atomic ◌>>=◌ has_verified_kyc choose_gateway find_first exceeds
    new_withdrawal insert_row add_balance ◌*ℤ◌ ◌-ℤ◌
withdrawn = refl

create_withdrawal_accepts_example : pos 20000 ≤ℤ user.balance
create_withdrawal_accepts_example =
    (create_withdrawal_accepts call user (pos 20000) "NGN" none "card" tables {t = withdrawal_row}
      withdrawn).2

create_withdrawal_covered_example : pos 0 ≤ℤ after_withdrawal.balances 7
create_withdrawal_covered_example =
    create_withdrawal_covered call user (pos 20000) "NGN" none "card" tables refl
      (λ u. ground arith) 7

stale_withdrawals_overdraw_example :
    let first = create_withdrawal call user (pos 20000) "NGN" none "card" tables in
    let second = create_withdrawal call user (pos 15000) "NGN" none "card" first.1 in
    ((t : Transaction) × (first.0 ≡ ok t))
    × ((t : Transaction) × (second.0 ≡ ok t))
    × (second.1.balances 7 <ℤ pos 0)
unfolding has_verified_kyc choose_gateway exceeds
stale_withdrawals_overdraw_example =
    stale_withdrawals_overdraw call call user (pos 20000) (pos 15000) "NGN" none "card" tables
      gateway refl refl refl (ground arith) (ground arith) refl refl (ground arith) (ground arith)
      (unfold ◌+ℤ◌ in omega arith)

-- rounding half up, on whole numbers of ten-thousandths
nearest : ℤ → ℤ
nearest (pos n) = pos ((n + 5000) / 10000)
nearest (negsuc n) = if ltb n 4999 then pos 0 else negsuc ((n + 5001) / 10000 - 1)

nearest-IsRounding : IsRounding nearest
unfolding nearest ◌*ℤ◌ ◌+ℤ◌
nearest-IsRounding = record { above = λ x. ground arith; below = λ x. ground arith }

abbrev event : String → String → WebhookEvent
event kind reference = record { event_type = kind; reference = reference; raw = nil }

-- a forged signature, and one that is not ASCII
forged_refused :
    webhook_view "key"
      (λ s b. b)
      (λ b. ok (event "payment.success" "DK-1"))
      "raw"
      "forged"
      300
      tables
    ≡ (ok invalid_signature, tables)
unfolding webhook_view pure
forged_refused = refl

not_ascii_raises :
    webhook_view "key" (λ s b. b) (λ b. ok (event "payment.success" "DK-1")) "raw" "é" 300 tables
    ≡ (err type_error, tables)
unfolding webhook_view lift
not_ascii_raises = refl

handle_webhook_again_example :
    let after = (handle_webhook 300 (event "payment.success" "DK-1") tables).1 in
    handle_webhook 400 (event "payment.failed" "DK-1") after ≡ (ok already_processed, after)
unfolding handle_webhook atomic ◌>>=◌ get_unique has_ref is_completed dispatch on_success
    new_channel is_deposit
handle_webhook_again_example =
    handle_webhook_again 300 400 (event "payment.success" "DK-1") (event "payment.failed" "DK-1")
      tables (tt, tt) refl refl refl

abbrev failed_event : WebhookEvent
failed_event = event "payment.failed" "DK-2"

stale_reconcile_credits_twice_example :
    let hooked = (handle_webhook 300 (event "payment.success" "DK-1") tables).1 in
    let rows = filter_rows (is_pending_deposit 0) tables.transactions in
    let (r, after) =
      reconcile_rows 400 (λ k. send) rows (record { reconciled = 0; failed = 0 }) hooked in
    (find_id 1 hooked.transactions ≡ some (complete 300 (text "card") nil row))
    × (r ≡ ok (record { reconciled = 0 + 1; failed = 0 }))
    × (find_id 1 after.transactions
        ≡ some (record row {
          status = completed;
          completed_at = some 400;
          gateway_response = success_reply;
        }))
    × (after.balances 7 ≡ pos 30000 +ℤ pos 19700 +ℤ pos 19700)
unfolding filter_rows is_pending_deposit get_unique has_ref new_channel verify_transaction
    reply_section outcome
stale_reconcile_credits_twice_example =
    stale_reconcile_credits_twice 300 400 0 (event "payment.success" "DK-1") (λ k. send)
      success_reply (field "status" (text "success") nil) (record { reconciled = 0; failed = 0 })
      tables {t = row} {channel = text "card"} refl refl refl refl refl refl refl refl
