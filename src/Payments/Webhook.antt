-- ===== src/Payments/Webhook.antt =====
-- payments/services.py: `handle_webhook`, and the view in payments/views.py that calls it behind
-- the signature.
use dutchkem_trading_ai.Trading.Books.{type_error}
use Prim.Native.String.{count, len}
use dutchkem_trading_ai.Common.{
  ◌==◌, not, ◌||◌, String, Bool, List, [], ◌∷◌, str_eq, if◌then◌else◌, ℕ,
}
use dutchkem_trading_ai.Common.Exec.{
  Result, ok, err, Exec, pure, lift, gets, modify_state, atomic, ◌>>=◌, ◌>>◌,
}
use dutchkem_trading_ai.Payments.Json.{Fields}
use dutchkem_trading_ai.Payments.Tables.{
  type_error, Transaction, TransactionStatus, Db, Error, does_not_exist, multiple_objects,
  is_completed, is_cancelled, is_deposit, save, add_balance, has_ref,
}
use dutchkem_trading_ai.Payments.Deposit.{mark_processing, complete, new_channel}

-- The dict that the view makes of the request body; `raw` is the dict itself, which is stored.
pub record WebhookEvent : Type 0 where
  pub event_type : String
  pub reference : String
  pub raw : Fields

pub data WebhookReply : Type 0 where
  missing_reference already_processed processed : WebhookReply

-- `Transaction.objects.get(korapay_ref=reference)`: raises unless exactly one row fits.
unfoldable pub get_unique : (Transaction → Bool) → List Transaction → Result Error Transaction
get_unique p [] = err does_not_exist
get_unique p (t ∷ ts) =
    let rest = get_unique p ts in
    if p t
    then elim rest [ ok _ ↦ err multiple_objects | err does_not_exist ↦ ok t | err e ↦ err e ]
    else rest

unfoldable pub on_success : ℕ → WebhookEvent → Transaction → Exec Db Error Unit
on_success now event t = if is_completed t.status then pure tt else do
  channel ← lift (new_channel event.raw t.channel)
  modify_state (save (complete now channel event.raw t))
  if is_deposit t.transaction_type then modify_state (add_balance t.user t.net_amount) else pure tt

unfoldable pub on_failed : WebhookEvent → Transaction → Exec Db Error Unit
on_failed event t =
    if is_completed t.status || is_cancelled t.status
    then pure tt
    else modify_state
        (save (record t { status = TransactionStatus.failed; gateway_response = event.raw }))

unfoldable pub on_pending : WebhookEvent → Transaction → Exec Db Error Unit
on_pending event t = modify_state (save (mark_processing event.raw t))

unfoldable pub dispatch : ℕ → WebhookEvent → Transaction → Exec Db Error Unit
dispatch now event t =
    if str_eq event.event_type "payment.success"
    then on_success now event t
    else if str_eq event.event_type "payment.failed"
    then on_failed event t
    else if str_eq event.event_type "payment.pending"
    then on_pending event t
    else pure tt

unfoldable pub handle_webhook : ℕ → WebhookEvent → Exec Db Error WebhookReply
handle_webhook now event = atomic (
    if str_eq event.reference "" then pure missing_reference else do
      rows ← gets (λ db. db.transactions)
      t ← lift (get_unique (has_ref event.reference) rows)
      if is_completed t.status
          then pure already_processed
          else do dispatch now event t; pure processed)

pub data ViewReply : Type 0 where
  secret_not_configured invalid_signature : ViewReply
  handled : WebhookReply → ViewReply

-- The UTF-8 form of a text has as many bytes as characters.
unfoldable pub is_ascii : String → Bool
is_ascii s = count s == len s

-- `KorapayWebhookView.post`; `digest` is HMAC-SHA256 under the configured secret, in hex, and `parse`
-- what the request's parser and the lookups in its data make of the body. `hmac.compare_digest` raises
-- for a text that is not ASCII.
unfoldable pub webhook_view :
    String
    → (String → String → String)
    → (String → Result Error WebhookEvent)
    → String
    → String
    → ℕ
    → Exec Db Error ViewReply
unfolding is_ascii
webhook_view secret digest parse raw_body signature now =
    if str_eq secret ""
    then pure secret_not_configured
    else if not (is_ascii signature)
    then lift (err type_error)
    else if str_eq (digest secret raw_body) signature
    then (do event ← lift (parse raw_body); reply ← handle_webhook now event; pure (handled reply))
    else pure invalid_signature
