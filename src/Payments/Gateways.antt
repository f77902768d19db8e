-- ===== src/Payments/Gateways.antt =====
-- payments/services.py: what `PaymentService` methods share, the choice of a gateway, the limits and
-- the fee.
use dutchkem_trading_ai.Common.{
  ℕ, String, Bool, false, ◌&&◌, ◌||◌, Option, none, some, ◌∷◌, ◌==◌, str_eq,
}
use dutchkem_trading_ai.Common.Int.{ℤ, pos, ◌-ℤ◌, ◌*ℤ◌, ltb_ℤ}
use dutchkem_trading_ai.Payments.Tables.{Transaction, PaymentGateway, Db, find_gateway}
use dutchkem_trading_ai.Payments.Korapay.{HttpReply}

-- What a call takes from outside: the new row's key and reference (`uuid4`), the time, the
-- rounding of a column with two decimals (from ten-thousandths of a cent to cents), and the
-- gateway's answers.
pub record Call : Type 0 where
  pub id : ℕ
  pub reference : String
  pub now : ℕ
  pub quantize : ℤ → ℤ
  pub send : ℕ → HttpReply

unfoldable pub by_id : Option ℕ → PaymentGateway → Bool
by_id none g = false
by_id (some i) g = g.id == i

unfoldable pub or_else : Option PaymentGateway → Option PaymentGateway → Option PaymentGateway
or_else none b = b
or_else (some g) b = some g

-- The gateway that is asked for, if it is active, and the active KORAPAY otherwise.
unfoldable pub choose_gateway : Option ℕ → Db → Option PaymentGateway
unfolding by_id or_else find_gateway
choose_gateway gateway_id db =
    or_else (find_gateway (by_id gateway_id) db) (find_gateway (λ g. str_eq g.name "KORAPAY") db)

-- `maximum and amount > maximum`: a maximum of zero is falsy, and counts as none.
unfoldable pub exceeds : Option ℤ → ℤ → Bool
exceeds none amount = false
exceeds (some maximum) amount =
    (ltb_ℤ maximum (pos 0) || ltb_ℤ (pos 0) maximum) && ltb_ℤ maximum amount

-- `amount * (percent / 100)`, exact, in ten-thousandths of a cent
unfoldable pub exact_fee : ℤ → ℤ → ℤ
exact_fee amount percent = amount *ℤ percent

unfoldable pub exact_net : ℤ → ℤ → ℤ
unfolding exact_fee
exact_net amount percent = amount *ℤ pos 10000 -ℤ exact_fee amount percent

-- `Transaction.objects.create(...)`: the newest row stands first.
unfoldable pub insert_row : Transaction → Db → Db
insert_row t db = record db { transactions = t ∷ db.transactions }
