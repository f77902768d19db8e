-- ===== src/Payments/Rounding.antt =====
-- The fee and the net amount of a row, each rounded to cents by itself.
use Prim.Native.Nat.{◌+◌}
use dutchkem_trading_ai.Payments.Deposit.{new_deposit}
use dutchkem_trading_ai.Payments.Tables.{PaymentGateway, User}
use dutchkem_trading_ai.Payments.Gateways.{exact_net, exact_fee, Call}
use dutchkem_trading_ai.Common.Int.{int_laws, ◌-ℤ◌, pos_part, neg_part, ◌+ℤ◌, ◌≤ℤ◌, ◌*ℤ◌, pos, ℤ}
use dutchkem_trading_ai.Common.{arith, ◌≡◌, ◌*◌, String}

-- A rounding of ten-thousandths of a cent to cents: off by half a cent at most, as `quantize` and
-- `numeric(20, 2)` do.
pub record IsRounding (quantize : ℤ → ℤ) : Type 0 where
  pub above : (x : ℤ) → pos 10000 *ℤ quantize x ≤ℤ x +ℤ pos 5000
  pub below : (x : ℤ) → x ≤ℤ pos 10000 *ℤ quantize x +ℤ pos 5000

scale_parts :
    (x : ℤ)
    → pos_part (pos 10000 *ℤ x) + 10000 * neg_part x
      ≡ neg_part (pos 10000 *ℤ x) + 10000 * pos_part x
unfolding ◌*ℤ◌
scale_parts x = ground arith

parts_scale :
    (x : ℤ)
    → pos_part (x *ℤ pos 10000) + 10000 * neg_part x
      ≡ neg_part (x *ℤ pos 10000) + 10000 * pos_part x
unfolding ◌*ℤ◌
parts_scale x = ground arith

-- Two roundings of the parts of a whole number of cents.
halves :
    (x a f n : ℤ)
    → pos 10000 *ℤ f ≤ℤ x +ℤ pos 5000
    → x ≤ℤ pos 10000 *ℤ f +ℤ pos 5000
    → pos 10000 *ℤ n ≤ℤ a *ℤ pos 10000 -ℤ x +ℤ pos 5000
    → a *ℤ pos 10000 -ℤ x ≤ℤ pos 10000 *ℤ n +ℤ pos 5000
    → (f +ℤ n ≤ℤ a +ℤ pos 1) × (a ≤ℤ f +ℤ n +ℤ pos 1)
halves x a f n p q r s = omega (int_laws, scale_parts, parts_scale)

-- Stored fee and stored net amount of a new deposit add up to its amount to within one cent.
pub new_deposit_fee_net :
    (c : Call) (user : User) (amount : ℤ) (currency channel redirect_url : String)
    (g : PaymentGateway)
    → IsRounding c.quantize
    → let t = new_deposit c user amount currency channel redirect_url g in
      (t.fee +ℤ t.net_amount ≤ℤ amount +ℤ pos 1) × (amount ≤ℤ t.fee +ℤ t.net_amount +ℤ pos 1)
unfolding new_deposit exact_fee exact_net
new_deposit_fee_net c user amount currency channel redirect_url g r =
    halves (amount *ℤ g.deposit_fee_percent) amount (c.quantize _) (c.quantize _) (r.above _)
      (r.below _) (r.above _) (r.below _)
