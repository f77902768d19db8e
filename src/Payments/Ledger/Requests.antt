-- ===== src/Payments/Ledger/Requests.antt =====
-- The webhook keeps every invariant of the writes.
use dutchkem_trading_ai.Payments.Ledger.Entries.{
  entry-complete_other, entry-mark_failed, entry-complete, entry-mark_processing,
  find_id-get_unique,
}
use dutchkem_trading_ai.Payments.Ledger.{find_id}
use dutchkem_trading_ai.Common.Keeps.{
  bind-Keeps, modify_state-Keeps_end, modify_state-Keeps, if-Keeps_split, lift-Keeps, gets-Keeps,
  pure-Keeps, if-Keeps, atomic-Keeps_of, Keeps,
}
use dutchkem_trading_ai.Payments.Deposit.{mark_processing, mark_failed, complete}
use dutchkem_trading_ai.Payments.Webhook.{
  WebhookEvent, on_success, on_pending, on_failed, handle_webhook, dispatch,
}
use dutchkem_trading_ai.Payments.Ledger.Invariant.{IsInvariant}
use dutchkem_trading_ai.Payments.Tables.{is_deposit, is_cancelled, is_completed, Transaction, Db}
use dutchkem_trading_ai.Common.{◌||◌, false, str_eq, some, ◌≡◌, ℕ}

module _ {P : Db → Type 0} (inv : IsInvariant P) where
  on_success-Keeps :
      (db : Db) (now : ℕ) (event : WebhookEvent) (t : Transaction)
      → P db
      → find_id t.id db.transactions ≡ some t
      → Keeps P db (on_success now event t)
  unfolding on_success complete
  on_success-Keeps db now event t h found =
      if-Keeps (is_completed t.status) (λ _. pure-Keeps h tt)
        λ open_yet. lift-Keeps h _ _ λ channel _. modify_state-Keeps _ _ (
          if-Keeps (is_deposit t.transaction_type)
            (λ dep. modify_state-Keeps_end _ (
              inv.paid _ t.user t.net_amount h found open_yet
                (λ u. entry-complete now channel event.raw t u open_yet dep)))
            (λ other.
              pure-Keeps
                (inv.rewritten _ h found open_yet
                  (λ u. entry-complete_other now channel event.raw t u other))
                tt))

  on_failed-Keeps :
      (db : Db) (event : WebhookEvent) (t : Transaction)
      → P db
      → find_id t.id db.transactions ≡ some t
      → is_completed t.status ≡ false
      → Keeps P db (on_failed event t)
  unfolding on_failed mark_failed
  on_failed-Keeps db event t h found open_yet =
      if-Keeps (is_completed t.status || is_cancelled t.status) (λ _. pure-Keeps h tt)
        λ _.
          modify_state-Keeps_end _
            (inv.rewritten _ h found open_yet (λ u. entry-mark_failed event.raw t u open_yet))

  on_pending-Keeps :
      (db : Db) (event : WebhookEvent) (t : Transaction)
      → P db
      → find_id t.id db.transactions ≡ some t
      → is_completed t.status ≡ false
      → Keeps P db (on_pending event t)
  unfolding on_pending mark_processing
  on_pending-Keeps db event t h found open_yet =
      modify_state-Keeps_end _
        (inv.rewritten _ h found open_yet (λ u. entry-mark_processing event.raw t u open_yet))

  dispatch-Keeps :
      (db : Db) (now : ℕ) (event : WebhookEvent) (t : Transaction)
      → P db
      → find_id t.id db.transactions ≡ some t
      → is_completed t.status ≡ false
      → Keeps P db (dispatch now event t)
  unfolding dispatch
  dispatch-Keeps db now event t h found open_yet =
      if-Keeps_split (str_eq event.event_type "payment.success")
        (on_success-Keeps db now event t h found)
        (if-Keeps_split (str_eq event.event_type "payment.failed")
          (on_failed-Keeps db event t h found open_yet)
          (if-Keeps_split (str_eq event.event_type "payment.pending")
            (on_pending-Keeps db event t h found open_yet) (pure-Keeps h tt)))

  pub handle_webhook-Keeps :
      (db : Db) (now : ℕ) (event : WebhookEvent) → P db → Keeps P db (handle_webhook now event)
  unfolding handle_webhook
  handle_webhook-Keeps db now event h = atomic-Keeps_of h (
      if-Keeps (str_eq event.reference "") (λ _. pure-Keeps h _)
        λ _. gets-Keeps _ _ (
          lift-Keeps h _ _ λ t e.
            if-Keeps (is_completed t.status) (λ _. pure-Keeps h _)
              λ open_yet.
                let k : Keeps P db (dispatch now event t) =
                  dispatch-Keeps db now event t h (find_id-get_unique _ _ (inv.keys h) e)
                    open_yet in
                bind-Keeps _ _ k λ _ _. pure-Keeps k.after _))
