-- ===== src/Payments/Withdrawal.antt =====
-- payments/services.py: `create_withdrawal`, as an action on the tables.
use dutchkem_trading_ai.Common.{ℕ, String, Bool, not, ◌&&◌, Option, none, ◌==◌, is_some, find_first}
use dutchkem_trading_ai.Common.Int.{ℤ, pos, ◌-ℤ◌, ltb_ℤ}
use dutchkem_trading_ai.Common.Exec.{
  Exec, pure, gets, or_raise, raise_if, modify_state, atomic, ◌>>=◌, ◌>>◌,
}
use dutchkem_trading_ai.Payments.Json.{text, nil}
use dutchkem_trading_ai.Payments.Tables.{
  Transaction, withdrawal, pending, PaymentGateway, User, Db, Error, no_active_gateway,
  kyc_required, minimum_withdrawal, maximum_withdrawal, insufficient_balance, is_verified,
  add_balance,
}
use dutchkem_trading_ai.Payments.Gateways.{
  Call, choose_gateway, exceeds, exact_fee, exact_net, insert_row,
}

unfoldable pub new_withdrawal : Call → User → ℤ → String → String → PaymentGateway → Transaction
unfolding exact_fee exact_net
new_withdrawal c user amount currency channel g = record {
  id = c.id;
  user = user.id;
  transaction_type = withdrawal;
  amount = amount;
  currency = currency;
  status = pending;
  gateway = g.id;
  korapay_ref = c.reference;
  channel = text channel;
  gateway_response = nil;
  fee = c.quantize (exact_fee amount g.withdrawal_fee_percent);
  net_amount = c.quantize (exact_net amount g.withdrawal_fee_percent);
  metadata = nil;
  created_at = c.now;
  completed_at = none;
}

unfoldable pub has_verified_kyc : ℕ → Db → Bool
unfolding find_first is_verified
has_verified_kyc user db = is_some (find_first (λ k. k.user == user && is_verified k.status) db.kyc)

unfoldable pub create_withdrawal :
    Call → User → ℤ → String → Option ℕ → String → Exec Db Error Transaction
create_withdrawal c user amount currency gateway_id channel = atomic (do
  kyc ← gets (has_verified_kyc user.id)
  raise_if (not kyc) kyc_required
  found ← gets (choose_gateway gateway_id)
  g ← or_raise found no_active_gateway
  raise_if (ltb_ℤ amount g.min_withdrawal) minimum_withdrawal
  raise_if (exceeds g.max_withdrawal amount) maximum_withdrawal
  raise_if (ltb_ℤ user.balance amount) insufficient_balance
  let t = new_withdrawal c user amount currency channel g
  modify_state (insert_row t)
  modify_state (add_balance user.id (pos 0 -ℤ amount))
  pure t)
