-- ===== src/Payments/Withdrawals.antt =====
-- When `create_withdrawal` accepts, what it then does to the balance, and when funds cover it.
use dutchkem_trading_ai.Common.Exec.{atomic-err, Result-cases, ok, ◌>>=◌, atomic}
use dutchkem_trading_ai.Payments.Withdrawal.{new_withdrawal, has_verified_kyc, create_withdrawal}
use dutchkem_trading_ai.Common.Int.{◌-ℤ◌, pos, ◌+ℤ◌, ◌≤ℤ◌, ℤ}
use dutchkem_trading_ai.Payments.Tables.{
  find_gateway, PaymentGateway, Transaction, add_balance, Db, User,
}
use dutchkem_trading_ai.Payments.Gateways.{exceeds, choose_gateway, insert_row, Call}
use dutchkem_trading_ai.Common.{
  refl, sym, subst, inr, arith, inl, Option-cases, ◌==◌, if◌then◌else◌, ◌∷◌, false, some, true, ◌≡◌,
  Option, ℕ, String,
}

module _ (c : Call) (user : User) (amount : ℤ) (currency : String) (gateway_id : Option ℕ)
    (channel : String) (db : Db) where
  -- A withdrawal is accepted only for a user with a verified KYC row, through an active gateway, for
  -- an amount from its minimum to its maximum (where one is set) that the balance of the request's
  -- user object covers; the new row is then first in the table, and the amount leaves the user's
  -- balance and no other.
  pub create_withdrawal_accepts :
      {t : Transaction}
      → (create_withdrawal c user amount currency gateway_id channel db).0 ≡ ok t
      → let after = (create_withdrawal c user amount currency gateway_id channel db).1 in
        (has_verified_kyc user.id db ≡ true)
        × ((g : PaymentGateway) × (choose_gateway gateway_id db ≡ some g)
            × (g.min_withdrawal ≤ℤ amount)
            × (exceeds g.max_withdrawal amount ≡ false))
        × (amount ≤ℤ user.balance)
        × (after.transactions ≡ t ∷ db.transactions)
        × ((u : ℕ)
            → after.balances u
              ≡ (if u == user.id then db.balances u +ℤ (pos 0 -ℤ amount) else db.balances u))
  unfolding create_withdrawal atomic ◌>>=◌ insert_row add_balance
  create_withdrawal_accepts {t} e = elim (Option-cases (choose_gateway gateway_id db)) [
    | inl nothing ↦ absurd (ground arith)
    | inr (g, found) ↦ (
      ground arith,
      (g, found, ground arith, ground arith),
      ground arith,
      ground arith,
      λ u. ground arith,
    )
  ]

  module _ (g : PaymentGateway) (kyc : has_verified_kyc user.id db ≡ true)
      (found : choose_gateway gateway_id db ≡ some g) (low : g.min_withdrawal ≤ℤ amount)
      (high : exceeds g.max_withdrawal amount ≡ false) (covered : amount ≤ℤ user.balance) where
    create_withdrawal_lem : create_withdrawal c user amount currency gateway_id channel db ≡ (
      ok (new_withdrawal c user amount currency channel g),
      add_balance user.id
          (pos 0 -ℤ amount)
          (insert_row (new_withdrawal c user amount currency channel g) db),
    )
    unfolding create_withdrawal atomic ◌>>=◌
    create_withdrawal_lem = ground arith

    -- A withdrawal that no guard stops is accepted, and leaves what the guards read of the tables.
    pub create_withdrawal-accepted :
        let (r, after) = create_withdrawal c user amount currency gateway_id channel db in
        ((t : Transaction) × (r ≡ ok t))
        × (has_verified_kyc user.id after ≡ true)
        × (choose_gateway gateway_id after ≡ some g)
    unfolding insert_row add_balance has_verified_kyc choose_gateway find_gateway
    create_withdrawal-accepted =
        rw create_withdrawal_lem
          ((new_withdrawal c user amount currency channel g, refl), kyc, found)

-- If the request's user object holds the balance of its row and no balance is negative before, then
-- none is negative after a withdrawal, whether it is accepted or raises.
pub create_withdrawal_covered :
    (c : Call) (user : User) (amount : ℤ) (currency : String) (gateway_id : Option ℕ)
    (channel : String) (db : Db)
    → user.balance ≡ db.balances user.id
    → ((u : ℕ) → pos 0 ≤ℤ db.balances u)
    → (u : ℕ)
    → pos 0 ≤ℤ (create_withdrawal c user amount currency gateway_id channel db).1.balances u
unfolding create_withdrawal
create_withdrawal_covered c user amount currency gateway_id channel db fresh covered u =
    elim (Result-cases (create_withdrawal c user amount currency gateway_id channel db).0) [
      | inl (t, e) ↦
          let (_, _, cover, _, moved) =
            create_withdrawal_accepts c user amount currency gateway_id channel db {t = t} e in
          subst (λ b. pos 0 ≤ℤ b) (sym (moved u))
            (unfold ◌+ℤ◌ ◌-ℤ◌ in ground (arith, covered u, covered user.id))
      | inr (x, e) ↦ subst (λ (d : Db). pos 0 ≤ℤ d.balances u) (sym (atomic-err _ db e)) (covered u)
    ]
