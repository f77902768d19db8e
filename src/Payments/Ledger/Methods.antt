-- ===== src/Payments/Ledger/Methods.antt =====
-- The methods of `PaymentService` for deposits and withdrawals keep every invariant of the writes.
use dutchkem_trading_ai.Payments.Ledger.Rows.{find_id-find_first}
use dutchkem_trading_ai.Payments.Ledger.Entries.{
  entry-after_init, entry-mark_processing, is_deposit-find_first, entry-mark_failed, entry-complete,
  entry-new_withdrawal, entry-new_deposit,
}
use dutchkem_trading_ai.Payments.Korapay.{initialize_transaction}
use dutchkem_trading_ai.Payments.Ledger.{entry, find_id, HasNoId}
use dutchkem_trading_ai.Payments.Json.{Fields}
use dutchkem_trading_ai.Common.Int.{pos, ℤ}
use dutchkem_trading_ai.Common.Keeps.{
  lift-Keeps, pure-Keeps, modify_state-Keeps, if-Keeps, raise_if-Keeps, or_raise-Keeps, gets-Keeps,
  atomic-Keeps_of, Keeps,
}
use dutchkem_trading_ai.Payments.Gateways.{insert_row, Call}
use dutchkem_trading_ai.Common.Exec.{pure, lift, ◌>>=◌, modify_state, ◌>>◌, Result}
use dutchkem_trading_ai.Payments.Withdrawal.{new_withdrawal, create_withdrawal}
use dutchkem_trading_ai.Payments.Deposit.{
  after_init, undecided, refused, paid, outcome, new_deposit, Outcome, mark_processing, mark_failed,
  complete, verify_deposit, settle, create_deposit,
}
use dutchkem_trading_ai.Payments.Ledger.Invariant.{IsInvariant}
use dutchkem_trading_ai.Payments.Tables.{
  save, is_deposit, is_completed, User, Error, Transaction, Db,
}
use dutchkem_trading_ai.Common.{refl, arith, true, some, false, ◌≡◌, Option, ℕ, String}

module _ {P : Db → Type 0} (inv : IsInvariant P) where
  -- The branches behind the gateway's answer, for an open deposit.
  pub settle-Keeps :
      (db : Db) (c : Call) (t : Transaction) (reply section : Fields) (o : Outcome)
      → P db
      → find_id t.id db.transactions ≡ some t
      → is_completed t.status ≡ false
      → is_deposit t.transaction_type ≡ true
      → Keeps P db (settle c t reply section o)
  unfolding settle complete mark_failed mark_processing
  settle-Keeps db c t reply section paid h found open_yet dep = lift-Keeps h _ _ λ channel _.
      modify_state-Keeps _ _ (
        modify_state-Keeps _ _ (
          pure-Keeps
            (inv.paid _ t.user t.net_amount h found open_yet
              (λ u. entry-complete c.now channel reply t u open_yet dep))
            _))
  settle-Keeps db c t reply section refused h found open_yet dep =
      modify_state-Keeps _ _ (
        pure-Keeps (inv.rewritten _ h found open_yet (λ u. entry-mark_failed reply t u open_yet)) _)
  settle-Keeps db c t reply section undecided h found open_yet dep = modify_state-Keeps _ _ (
      pure-Keeps (inv.rewritten _ h found open_yet (λ u. entry-mark_processing reply t u open_yet))
        _)

  pub verify_deposit-Keeps :
      (db : Db) (c : Call) (reference : String) → P db → Keeps P db (verify_deposit c reference)
  unfolding verify_deposit
  verify_deposit-Keeps db c reference h = atomic-Keeps_of h (
      gets-Keeps _ _ (
        or_raise-Keeps h _ _ _ λ t e.
          if-Keeps (is_completed t.status) (λ _. pure-Keeps h _)
            λ open_yet. lift-Keeps h _ _ λ reply _. lift-Keeps h _ _ λ section _.
              settle-Keeps db c t reply section (outcome reply section) h
                (find_id-find_first _ _ (inv.keys h) e) open_yet
                (is_deposit-find_first reference db.transactions e)))

  -- A new row without an entry, and the write of the gateway's answer to it.
  opened-Keeps :
      (db : Db) (t : Transaction) (reply : Result Error Fields)
      → P db
      → HasNoId t.id db.transactions
      → is_completed t.status ≡ false
      → ((u : ℕ) → entry u t ≡ pos 0)
      → Keeps P db (do
        modify_state (insert_row t)
        r ← lift reply
        modify_state (save (after_init r t))
        pure (after_init r t))
  opened-Keeps db t reply h fresh open_yet nothing =
      let h' : P (insert_row t db) = inv.opened t h fresh nothing in
      modify_state-Keeps _ _ (
        lift-Keeps h' _ _ λ r _. modify_state-Keeps _ _ (
          pure-Keeps
            (inv.rewritten (after_init r t) {r = t} h'
              (unfold find_id insert_row after_init in ground arith) open_yet
              (λ u. entry-after_init r t u open_yet))
            _))

  pub create_deposit-Keeps :
      (db : Db) (c : Call) (user : User) (amount : ℤ) (currency : String) (gateway_id : Option ℕ)
      (channel redirect_url : String)
      → P db
      → HasNoId c.id db.transactions
      → Keeps P db (create_deposit c user amount currency gateway_id channel redirect_url)
  unfolding create_deposit
  create_deposit-Keeps db c user amount currency gateway_id channel redirect_url h fresh =
      atomic-Keeps_of h (
        raise_if-Keeps _ _ _ h λ _. gets-Keeps _ _ (
          or_raise-Keeps h _ _ _ λ g _. raise_if-Keeps _ _ _ h λ _. raise_if-Keeps _ _ _ h λ _.
            opened-Keeps db (new_deposit c user amount currency channel redirect_url g)
              (initialize_transaction c.send currency) h (unfold new_deposit in fresh)
              (unfold new_deposit is_completed in refl)
              (entry-new_deposit c user amount currency channel redirect_url g)))

  pub create_withdrawal-Keeps :
      (db : Db) (c : Call) (user : User) (amount : ℤ) (currency : String) (gateway_id : Option ℕ)
      (channel : String)
      → P db
      → HasNoId c.id db.transactions
      → Keeps P db (create_withdrawal c user amount currency gateway_id channel)
  unfolding create_withdrawal
  create_withdrawal-Keeps db c user amount currency gateway_id channel h fresh = atomic-Keeps_of h (
      gets-Keeps _ _ (
        raise_if-Keeps _ _ _ h λ _. gets-Keeps _ _ (
          or_raise-Keeps h _ _ _ λ g _. raise_if-Keeps _ _ _ h λ _. raise_if-Keeps _ _ _ h λ _.
            raise_if-Keeps _ _ _ h λ _. modify_state-Keeps _ _ (
              modify_state-Keeps _ _ (
                pure-Keeps
                  (inv.debited (new_withdrawal c user amount currency channel g) user.id _ h
                    (unfold new_withdrawal in fresh)
                    (entry-new_withdrawal c user amount currency channel g))
                  _)))))
