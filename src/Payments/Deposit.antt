-- ===== src/Payments/Deposit.antt =====
-- payments/services.py: `create_deposit` and `verify_deposit`, as actions on the tables.
use dutchkem_trading_ai.Common.{
  ℕ, String, Bool, not, ◌||◌, Option, none, some, if◌then◌else◌, find_first,
}
use dutchkem_trading_ai.Common.Int.{ℤ, ltb_ℤ}
use dutchkem_trading_ai.Common.Exec.{
  Result, ok, err, Exec, pure, lift, gets, or_raise, raise_if, modify_state, atomic, ◌>>=◌, ◌>>◌,
}
use dutchkem_trading_ai.Payments.Json.{
  Json, Fields, null, text, obj, nil, field, get, is_text, is_true, as_dict,
}
use dutchkem_trading_ai.Payments.Tables.{
  Transaction, deposit, pending, processing, completed, TransactionStatus, PaymentGateway, User, Db,
  Error, unsupported_currency, no_active_gateway, minimum_deposit, maximum_deposit, does_not_exist,
  attribute_error, integrity_error, is_completed, save, add_balance, is_deposit_with_ref,
}
use dutchkem_trading_ai.Payments.Korapay.{is_supported, initialize_transaction, verify_transaction}
use dutchkem_trading_ai.Payments.Gateways.{
  Call, choose_gateway, exceeds, exact_fee, exact_net, insert_row,
}

unfoldable pub new_deposit :
    Call → User → ℤ → String → String → String → PaymentGateway → Transaction
unfolding exact_fee exact_net
new_deposit c user amount currency channel redirect_url g = record {
  id = c.id;
  user = user.id;
  transaction_type = deposit;
  amount = amount;
  currency = currency;
  status = pending;
  gateway = g.id;
  korapay_ref = c.reference;
  channel = text channel;
  gateway_response = nil;
  fee = c.quantize (exact_fee amount g.deposit_fee_percent);
  net_amount = c.quantize (exact_net amount g.deposit_fee_percent);
  metadata = field "initiated_by" (text "api") (field "redirect_url" (text redirect_url) nil);
  created_at = c.now;
  completed_at = none;
}

unfoldable pub init_succeeded : Fields → Bool
unfolding get is_true is_text
init_succeeded reply =
    let status = get "status" null reply in is_true status || is_text "success" status

unfoldable pub after_init : Fields → Transaction → Transaction
unfolding init_succeeded
after_init reply t = record t {
  status = if init_succeeded reply then processing else TransactionStatus.failed;
  gateway_response = reply;
}

unfoldable pub create_deposit :
    Call → User → ℤ → String → Option ℕ → String → String → Exec Db Error Transaction
create_deposit c user amount currency gateway_id channel redirect_url = atomic (do
  raise_if (not (is_supported currency)) unsupported_currency
  found ← gets (choose_gateway gateway_id)
  g ← or_raise found no_active_gateway
  raise_if (ltb_ℤ amount g.min_deposit) minimum_deposit
  raise_if (exceeds g.max_deposit amount) maximum_deposit
  let t = new_deposit c user amount currency channel redirect_url g
  modify_state (insert_row t)
  reply ← lift (initialize_transaction c.send currency)
  modify_state (save (after_init reply t))
  pure (after_init reply t))

-- `result.get("data", {})`, on which `.get` raises if it is no dict
unfoldable pub reply_section : Fields → Result Error Fields
unfolding get as_dict
reply_section reply = elim (as_dict (get "data" (obj nil) reply)) [
  | none ↦ err attribute_error
  | some fs ↦ ok fs
]

pub data Outcome : Type 0 where
  paid refused undecided : Outcome

-- What the gateway says of a payment: its status in "data", or else at the top.
unfoldable pub outcome : Fields → Fields → Outcome
unfolding get is_text
outcome reply section =
    let status = get "status" (get "status" (text "") reply) section in
    if is_text "success" status || is_text "completed" status
    then paid
    else if is_text "failed" status || is_text "abandoned" status
    then refused
    else undecided

-- `section.get("channel", tx.channel)`; the column takes no null.
unfoldable pub new_channel : Fields → Json → Result Error Json
unfolding get
new_channel section old = elim (get "channel" old section) [
  | null ↦ err integrity_error
  | other ↦ ok other
]

unfoldable pub complete : ℕ → Json → Fields → Transaction → Transaction
complete now channel reply t = record t {
  status = completed;
  completed_at = some now;
  channel = channel;
  gateway_response = reply;
}

unfoldable pub mark_failed : Fields → Transaction → Transaction
mark_failed reply t = record t { status = TransactionStatus.failed; gateway_response = reply }

unfoldable pub mark_processing : Fields → Transaction → Transaction
mark_processing reply t = record t { status = processing; gateway_response = reply }

-- The branches of `verify_deposit` behind the gateway's answer.
unfoldable pub settle : Call → Transaction → Fields → Fields → Outcome → Exec Db Error Transaction
settle c t reply section paid = do
  channel ← lift (new_channel section t.channel)
  let t' = complete c.now channel reply t
  modify_state (save t')
  modify_state (add_balance t.user t.net_amount)
  pure t'
settle c t reply section refused = do let t' = mark_failed reply t; modify_state (save t'); pure t'
settle c t reply section undecided = do
  let t' = mark_processing reply t
  modify_state (save t')
  pure t'

unfoldable pub verify_deposit : Call → String → Exec Db Error Transaction
verify_deposit c reference = atomic (do
  found ← gets (λ db. find_first (is_deposit_with_ref reference) db.transactions)
  t ← or_raise found does_not_exist
  if is_completed t.status then pure t else do
    reply ← lift (verify_transaction c.send)
    section ← lift (reply_section reply)
    settle c t reply section (outcome reply section))
