-- ===== src/Payments/Verification.antt =====
-- That asking again for a deposit that `verify_deposit` completed changes nothing.
use dutchkem_trading_ai.Payments.Ledger.Rows.{find_id-none, find_id-find_first}
use dutchkem_trading_ai.Payments.Deposit.{
  undecided, refused, Outcome, mark_processing, mark_failed, complete, settle, verify_deposit,
  new_channel, paid, outcome, reply_section,
}
use dutchkem_trading_ai.Common.Exec.{Result-cases, ◌>>=◌, atomic, ok}
use dutchkem_trading_ai.Payments.Korapay.{verify_transaction}
use dutchkem_trading_ai.Payments.Json.{Json, Fields}
use dutchkem_trading_ai.Payments.Ledger.{HasUniqueIds, find_id}
use dutchkem_trading_ai.Payments.Tables.{
  add_balance, save, is_completed, is_deposit_with_ref, Transaction, save_row, Db,
}
use dutchkem_trading_ai.Payments.Gateways.{Call}
use dutchkem_trading_ai.Common.{
  inr, inl, Option-cases, refl, [], arith, ◌∷◌, true, some, ◌≡◌, List, Bool, find_first, ℕ, String,
}

find_first-save_row :
    (p : Transaction → Bool) (t' : Transaction) (ts : List Transaction) {t : Transaction}
    → find_first p ts ≡ some t
    → HasUniqueIds ts
    → t'.id ≡ t.id
    → p t' ≡ true
    → find_first p (save_row t' ts) ≡ some t'
unfolding find_first save_row find_id
find_first-save_row p t' [] e h same fits = cc
find_first-save_row p t' (x ∷ xs) {t} e h same fits = ground (
  arith,
  find_first-save_row p t' xs {t = t},
  find_id-find_first p xs {r = t} h.1,
  find_id-none x.id xs h.0,
)

is_deposit_with_ref-complete :
    (reference : String) (now : ℕ) (channel : Json) (reply : Fields) (t : Transaction)
    → is_deposit_with_ref reference (complete now channel reply t) ≡ is_deposit_with_ref reference t
unfolding is_deposit_with_ref complete
is_deposit_with_ref-complete reference now channel reply t = refl

find_first-fits :
    (p : Transaction → Bool) (ts : List Transaction) {t : Transaction}
    → find_first p ts ≡ some t
    → p t ≡ true
unfolding find_first
find_first-fits p [] e = cc
find_first-fits p (x ∷ xs) {t} e = ground (arith, find_first-fits p xs {t = t})

-- A branch that returns a completed deposit leaves that row where the query finds it.
settle_found :
    (c : Call) (reference : String) (db : Db) (t' : Transaction) (reply section : Fields)
    (o : Outcome) {t : Transaction}
    → HasUniqueIds db.transactions
    → find_first (is_deposit_with_ref reference) db.transactions ≡ some t'
    → (settle c t' reply section o db).0 ≡ ok t
    → is_completed t.status ≡ true
    → find_first (is_deposit_with_ref reference) (settle c t' reply section o db).1.transactions
      ≡ some t
unfolding settle ◌>>=◌ save add_balance is_completed mark_failed mark_processing complete
settle_found c reference db t' reply section paid {t} keys found e done =
    elim (Result-cases (new_channel section t'.channel)) [
      | inr (x, bad) ↦ ground arith
      | inl (channel, on) ↦ ground (
        arith,
        find_first-fits (is_deposit_with_ref reference) db.transactions {t = t'} found,
        find_first-save_row (is_deposit_with_ref reference) (complete c.now channel reply t')
            db.transactions {t = t'} found keys refl,
        is_deposit_with_ref-complete reference c.now channel reply t',
      )
    ]
settle_found c reference db t' reply section refused keys found e done = ground arith
settle_found c reference db t' reply section undecided keys found e done = ground arith

verify_deposit_found :
    (c : Call) (reference : String) (db : Db) {t : Transaction}
    → HasUniqueIds db.transactions
    → (verify_deposit c reference db).0 ≡ ok t
    → is_completed t.status ≡ true
    → find_first (is_deposit_with_ref reference) (verify_deposit c reference db).1.transactions
      ≡ some t
unfolding verify_deposit atomic ◌>>=◌
verify_deposit_found c reference db {t} keys e done =
    elim (Option-cases (find_first (is_deposit_with_ref reference) db.transactions)) [
      | inl nothing ↦ ground arith
      | inr (t', found) ↦ elim (Result-cases (verify_transaction c.send)) [
        | inr (x, bad) ↦ ground arith
        | inl (reply, good) ↦ elim (Result-cases (reply_section reply)) [
          | inr (x, bad) ↦ ground arith
          | inl (section, sectioned) ↦ ground (
            arith,
            settle_found c reference db t' reply section (outcome reply section) {t = t} keys found,
          )
        ]
      ]
    ]

verify_deposit_of_completed :
    (c : Call) (reference : String) (db : Db) {t : Transaction}
    → find_first (is_deposit_with_ref reference) db.transactions ≡ some t
    → is_completed t.status ≡ true
    → verify_deposit c reference db ≡ (ok t, db)
unfolding verify_deposit atomic ◌>>=◌
verify_deposit_of_completed c reference db found done = ground arith

-- Once `verify_deposit` has returned a completed deposit, a second call with the same reference
-- returns the same row and leaves all tables as they are, whatever the gateway answers to it.
pub verify_deposit_again :
    (c c' : Call) (reference : String) (db : Db) {t : Transaction}
    → HasUniqueIds db.transactions
    → (verify_deposit c reference db).0 ≡ ok t
    → is_completed t.status ≡ true
    → verify_deposit c' reference (verify_deposit c reference db).1
      ≡ (ok t, (verify_deposit c reference db).1)
verify_deposit_again c c' reference db keys e done =
    verify_deposit_of_completed c' reference (verify_deposit c reference db).1
      (verify_deposit_found c reference db keys e done) done
