-- ===== src/Payments/Webhooks.antt =====
-- Webhooks that are delivered more than once: payments/services.py, `handle_webhook`.
use dutchkem_trading_ai.Payments.Ledger.Rows.{find_id-none}
use dutchkem_trading_ai.Payments.Json.{Json}
use dutchkem_trading_ai.Common.{
  refl, inl, inr, [], ◌∷◌, eq_iff, arith, true, some, false, ◌≡◌, str_eq, List, ℕ, Bool,
}
use dutchkem_trading_ai.Payments.Tables.{
  add_balance, save, Db, is_completed, Transaction, save_row, has_ref,
}
use dutchkem_trading_ai.Payments.Ledger.{HasUniqueIds, find_id}
use dutchkem_trading_ai.Common.Exec.{Result-cases, ok, ◌>>=◌, atomic}
use dutchkem_trading_ai.Payments.Webhook.{
  already_processed, processed, on_success, WebhookEvent, dispatch, handle_webhook, get_unique,
}
use dutchkem_trading_ai.Payments.Deposit.{new_channel, complete}

get_unique-find_id :
    (p : Transaction → Bool) (ts : List Transaction) {t : Transaction}
    → HasUniqueIds ts
    → get_unique p ts ≡ ok t
    → (find_id t.id ts ≡ some t) × (p t ≡ true)
unfolding get_unique find_id
get_unique-find_id p [] h e = ground arith
get_unique-find_id p (x ∷ xs) {t} h e =
    ground (arith, get_unique-find_id p xs {t = t} h.1, find_id-none x.id xs h.0)

get_unique-save_row :
    (p : Transaction → Bool) (t' : Transaction) (ts : List Transaction) {t : Transaction}
    → HasUniqueIds ts
    → get_unique p ts ≡ ok t
    → t'.id ≡ t.id
    → p t' ≡ true
    → get_unique p (save_row t' ts) ≡ ok t'
unfolding get_unique save_row
get_unique-save_row p t' [] h e same fits = ground arith
get_unique-save_row p t' (x ∷ xs) {t} h e same fits = ground (
  arith,
  get_unique-save_row p t' xs {t = t} h.1,
  get_unique-find_id p xs {t = t} h.1,
  find_id-none x.id xs h.0,
)

-- A webhook for a reference whose row is completed changes nothing.
handle_webhook_of_completed :
    (now : ℕ) (event : WebhookEvent) (db : Db) {t : Transaction}
    → str_eq event.reference "" ≡ false
    → get_unique (has_ref event.reference) db.transactions ≡ ok t
    → is_completed t.status ≡ true
    → handle_webhook now event db ≡ (ok already_processed, db)
unfolding handle_webhook atomic ◌>>=◌
handle_webhook_of_completed now event db named found done = ground arith

-- What a webhook that says that a payment succeeded has stored, once it was processed.
processed_row :
    (now : ℕ) (event : WebhookEvent) (db : Db)
    → event.event_type ≡ "payment.success"
    → (handle_webhook now event db).0 ≡ ok processed
    → (str_eq event.reference "" ≡ false)
      × ((t : Transaction) × (channel : Json) × (get_unique
              (has_ref event.reference)
              db.transactions
            ≡ ok t)
          × ((handle_webhook now event db).1.transactions
              ≡ save_row (complete now channel event.raw t) db.transactions))
unfolding handle_webhook atomic ◌>>=◌ dispatch on_success save add_balance
processed_row now event db says e =
    let success : str_eq event.event_type "payment.success" ≡ true = (eq_iff _ _).1 says in
    (
      ground arith,
      elim (Result-cases (get_unique (has_ref event.reference) db.transactions)) [
        | inr (x, bad) ↦ absurd (ground arith)
        | inl (t, found) ↦ elim (Result-cases (new_channel event.raw t.channel)) [
          | inr (x, bad) ↦ absurd (ground arith)
          | inl (channel, on) ↦ (t, channel, found, ground arith)
        ]
      ],
    )

-- Once a webhook that says that a payment succeeded was processed, no further webhook with its
-- reference changes a table, whether it is the same one delivered again or says something else, at
-- any time: each is answered as already processed.
pub handle_webhook_again :
    (now now' : ℕ) (event event' : WebhookEvent) (db : Db)
    → HasUniqueIds db.transactions
    → event.event_type ≡ "payment.success"
    → event'.reference ≡ event.reference
    → (handle_webhook now event db).0 ≡ ok processed
    → let after = (handle_webhook now event db).1 in
      handle_webhook now' event' after ≡ (ok already_processed, after)
unfolding complete has_ref is_completed
handle_webhook_again now now' event event' db keys says same e =
    let (named, (t, channel, found, stored)) = processed_row now event db says e in
    let t' = complete now channel event.raw t in
    let fits =
      (get_unique-find_id (has_ref event.reference) db.transactions {t = t} keys found).1 in
    let again =
      get_unique-save_row (has_ref event.reference) t' db.transactions {t = t} keys found refl
        fits in
    handle_webhook_of_completed now' event' (handle_webhook now event db).1 {t = t'} (rw same named)
      (rw (same, stored) again) refl
