-- ===== src/Payments/Crediting.antt =====
-- When `verify_deposit` of payments/services.py credits a deposit, and what it then writes.
use dutchkem_trading_ai.Common.Int.{◌+ℤ◌}
use dutchkem_trading_ai.Payments.Ledger.{find_id}
use dutchkem_trading_ai.Payments.Korapay.{verify_transaction}
use dutchkem_trading_ai.Common.Exec.{ok, Result}
use dutchkem_trading_ai.Payments.Tables.{completed, is_completed, Error, Transaction, Db}
use dutchkem_trading_ai.Common.{◌==◌, if◌then◌else◌, ◌||◌, ℕ, some, true, false, ◌≡◌, Bool}
use dutchkem_trading_ai.Payments.Json.{is_text, text, Json, get, Fields}
use dutchkem_trading_ai.Payments.Gateways.{Call}
use dutchkem_trading_ai.Payments.Deposit.{new_channel, reply_section}

-- What the gateway says of a payment, under "data" or else at the top, is that it is there.
unfoldable pub says_paid : Fields → Fields → Bool
says_paid reply section =
    let status = get "status" (get "status" (text "") reply) section in
    is_text "success" status || is_text "completed" status

-- A deposit that a call completes and credits.
pub record Credited (c : Call) (db : Db) (t t' : Transaction) (after : Db) : Type 0 where
  pub reply : Fields
  pub section : Fields
  pub channel : Json
  pub asked : verify_transaction c.send ≡ ok reply
  pub under_data : reply_section reply ≡ ok section
  pub paid_for : says_paid reply section ≡ true
  pub row : t' ≡ record t {
    status = completed;
    completed_at = some c.now;
    channel = channel;
    gateway_response = reply;
  }
  pub stored : find_id t.id after.transactions ≡ some t'
  pub credit :
      (u : ℕ)
      → after.balances u ≡ (if u == t.user then db.balances u +ℤ t.net_amount else db.balances u)

-- One that it does not: nothing is credited, no completed row is returned, and the gateway does not
-- say that it is paid, unless its answer has no channel to store.
pub record NotCredited (c : Call) (db : Db) (t : Transaction) (r : Result Error Transaction)
    (after : Db) : Type 0 where
  pub same_balances : (u : ℕ) → after.balances u ≡ db.balances u
  pub still_open : (t' : Transaction) → r ≡ ok t' → is_completed t'.status ≡ false
  pub unpaid :
      (reply section : Fields) (channel : Json)
      → verify_transaction c.send ≡ ok reply
      → reply_section reply ≡ ok section
      → new_channel section t.channel ≡ ok channel
      → says_paid reply section ≡ false
