-- ===== src/Payments/Ledger/Entries.antt =====
-- The entry of a row under each write that the service makes, and the rows that its queries find.
use dutchkem_trading_ai.Payments.Webhook.{get_unique}
use dutchkem_trading_ai.Common.{
  ℕ, String, ◌≡◌, Bool, true, false, some, List, [], ◌∷◌, find_first, arith, ◌==◌, if◌then◌else◌,
}
use dutchkem_trading_ai.Common.Int.{ℤ, pos, ◌+ℤ◌, ◌-ℤ◌, int_laws}
use dutchkem_trading_ai.Common.Exec.{ok}
use dutchkem_trading_ai.Payments.Json.{Fields, Json}
use dutchkem_trading_ai.Payments.Tables.{
  PaymentGateway, Transaction, User, is_completed, is_deposit, is_deposit_with_ref,
}
use dutchkem_trading_ai.Payments.Gateways.{Call}
use dutchkem_trading_ai.Payments.Deposit.{
  mark_processing, mark_failed, complete, new_deposit, after_init,
}
use dutchkem_trading_ai.Payments.Withdrawal.{new_withdrawal}
use dutchkem_trading_ai.Payments.Ledger.{value, entry, find_id, HasUniqueIds}
use dutchkem_trading_ai.Payments.Ledger.Rows.{find_id-none}

-- A deposit that is written as completed has its net amount for a new entry.
pub entry-complete :
    (now : ℕ) (channel : Json) (reply : Fields) (t : Transaction) (u : ℕ)
    → is_completed t.status ≡ false
    → is_deposit t.transaction_type ≡ true
    → entry u (complete now channel reply t)
      ≡ entry u t +ℤ (if u == t.user then t.net_amount else pos 0)
unfolding complete entry value is_completed is_deposit
entry-complete now channel reply t u open_yet dep = grind int_laws

pub entry-mark_failed :
    (reply : Fields) (t : Transaction) (u : ℕ)
    → is_completed t.status ≡ false
    → entry u (mark_failed reply t) ≡ entry u t
unfolding mark_failed entry value is_completed
entry-mark_failed reply t u open_yet = ground arith

pub entry-mark_processing :
    (reply : Fields) (t : Transaction) (u : ℕ)
    → is_completed t.status ≡ false
    → entry u (mark_processing reply t) ≡ entry u t
unfolding mark_processing entry value is_completed
entry-mark_processing reply t u open_yet = ground arith

pub is_deposit-find_first :
    (reference : String) (ts : List Transaction) {t : Transaction}
    → find_first (is_deposit_with_ref reference) ts ≡ some t
    → is_deposit t.transaction_type ≡ true
unfolding find_first is_deposit_with_ref
is_deposit-find_first reference [] e = cc
is_deposit-find_first reference (x ∷ xs) {t} e =
    ground (arith, is_deposit-find_first reference xs {t = t})

pub entry-new_deposit :
    (c : Call) (user : User) (amount : ℤ) (currency channel redirect_url : String)
    (g : PaymentGateway) (u : ℕ)
    → entry u (new_deposit c user amount currency channel redirect_url g) ≡ pos 0
unfolding new_deposit entry value
entry-new_deposit c user amount currency channel redirect_url g u = ground arith

pub entry-after_init :
    (reply : Fields) (t : Transaction) (u : ℕ)
    → is_completed t.status ≡ false
    → entry u (after_init reply t) ≡ entry u t
unfolding after_init entry value is_completed
entry-after_init reply t u open_yet = ground arith

pub entry-new_withdrawal :
    (c : Call) (user : User) (amount : ℤ) (currency channel : String) (g : PaymentGateway) (u : ℕ)
    → entry u (new_withdrawal c user amount currency channel g)
      ≡ (if u == user.id then pos 0 -ℤ amount else pos 0)
unfolding new_withdrawal entry value
entry-new_withdrawal c user amount currency channel g u = ground arith

-- Completing a row that is no deposit changes nothing of its entry.
pub entry-complete_other :
    (now : ℕ) (channel : Json) (reply : Fields) (t : Transaction) (u : ℕ)
    → is_deposit t.transaction_type ≡ false
    → entry u (complete now channel reply t) ≡ entry u t
unfolding complete entry value is_deposit
entry-complete_other now channel reply t u other = ground arith

pub find_id-get_unique :
    (p : Transaction → Bool) (ts : List Transaction) {t : Transaction}
    → HasUniqueIds ts
    → get_unique p ts ≡ ok t
    → find_id t.id ts ≡ some t
unfolding get_unique find_id
find_id-get_unique p [] h e = cc
find_id-get_unique p (x ∷ xs) {t} h e =
    ground (arith, find_id-get_unique p xs {t = t} h.1, find_id-none x.id xs h.0)
