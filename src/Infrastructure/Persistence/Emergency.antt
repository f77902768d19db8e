-- ===== src/Infrastructure/Persistence/Emergency.antt =====
-- The emergency save, `_save_emergency_state` of backend/infrastructure/power_protection.py, on the
-- stores of trading_state.py.
use dutchkem_trading_ai.Infrastructure.Persistence.Loading.{
  then_save, load_state-none, TornIsUnreadable, Saved,
}
use dutchkem_trading_ai.Common.{refl, ◌≡◌, String, Option, none, some, []}
use dutchkem_trading_ai.Infrastructure.Persistence.{
  load_state, Client, signed, Payload, positions, orders, entries, Snapshot, Stores, Backends,
  save_state, load_positions, load_account, load_orders, save_positions, save_account, save_orders,
}

module _ {Text : Type 0} (dumps : Snapshot → Text) (loads : Text → Option Snapshot)
    (sign : Snapshot → String) where
  -- `account or {}`
  abbrev or_empty : Option Payload → Payload
  or_empty none = entries []
  or_empty (some p) = p

  unfoldable pub resave_orders : Backends Text → Stores Text → Stores Text
  unfolding load_orders save_orders
  resave_orders b s = elim (load_orders dumps loads sign b.client s) [
    | none ↦ s
    | some os ↦ (save_orders dumps loads sign b os s).1
  ]

  -- The stores at each of the three saves; a KeyError ends the sequence, and is logged.
  unfoldable pub save_emergency_state :
      Backends Text → Backends Text → Backends Text → Stores Text → Stores Text
  unfolding load_positions save_positions load_account save_account resave_orders
  save_emergency_state at_positions at_account at_orders s =
      elim (load_positions dumps loads sign at_positions.client s) [
        | none ↦ s
        | some ps ↦
            let s1 = (save_positions dumps loads sign at_positions ps s).1 in
            let account = load_account dumps loads sign at_account.client s1 in
            let s2 = (save_account dumps loads sign at_account (or_empty account) s1).1 in
            resave_orders at_orders s2
      ]

  -- saving no positions, an empty account and no orders
  abbrev pub saved_empty : Backends Text → Backends Text → Backends Text → Stores Text → Stores Text
  saved_empty b1 b2 b3 s =
      (save_state dumps loads sign b3 "orders" (orders [] 0)
        (save_state dumps loads sign b2 "account" (entries [])
          (save_state dumps loads sign b1 "positions" (positions [] 0) s).1).1).1

  module _ (loads-dumps : (t : Snapshot) → loads (dumps t) ≡ some t)
      (no_collision : (t : Snapshot)
        → t.signature ≡ none
        → sign (signed dumps loads sign t) ≡ sign t
        → signed dumps loads sign t ≡ t) where
    none_loaded :
        (c : Client) (kind : String) {s : Stores Text}
        → Saved dumps loads sign s
        → load_state dumps loads sign c kind s ≡ none
    none_loaded c kind h = load_state-none dumps loads sign loads-dumps no_collision c kind h

    resave_orders-empty :
        (b : Backends Text) {s : Stores Text}
        → Saved dumps loads sign s
        → resave_orders b s ≡ (save_state dumps loads sign b "orders" (orders [] 0) s).1
    unfolding resave_orders load_orders save_orders
    resave_orders-empty b {s} h =
        rw (none_loaded b.client "orders" h, load_orders, resave_orders) refl

    -- After any saves, whichever stores failed at them, an emergency save does to the stores exactly
    -- what saving no positions, an empty account and no orders does: the trader's saved positions and
    -- orders are replaced by empty lists, whatever they were. Assumed: a JSON text is parsed to what
    -- it was printed from, a text that was cut off is not parsed, and the HMAC of a snapshot with its
    -- signature and that without it are equal only if they are the same snapshot.
    pub save_emergency_state-empties :
        (b1 b2 b3 : Backends Text) {s : Stores Text}
        → Saved dumps loads sign s
        → TornIsUnreadable dumps loads sign b1.disk
        → TornIsUnreadable dumps loads sign b2.disk
        → save_emergency_state b1 b2 b3 s ≡ saved_empty b1 b2 b3 s
    unfolding save_emergency_state load_positions save_positions load_account save_account
    save_emergency_state-empties b1 b2 b3 {s} h r1 r2 =
        let h1 = then_save b1 "positions" (positions [] 0) s h r1 in
        let s1 = (save_state dumps loads sign b1 "positions" (positions [] 0) s).1 in
        let h2 = then_save b2 "account" (entries []) s1 h1 r2 in
        rw (none_loaded b1.client "positions" h, load_positions, save_emergency_state)
          (rw (none_loaded b2.client "account" h1, load_account) (resave_orders-empty b3 h2))
