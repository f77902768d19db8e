-- ===== src/Trading/Closing.antt =====
-- What closing a trade does to the tables and what it leaves at the broker: backend/trading/services.py.
use dutchkem_trading_ai.Risk.Breakers.{check_circuit_breaker-counts}
use dutchkem_trading_ai.Risk.Numeric.{float, cents_of, add}
use dutchkem_trading_ai.Risk.Monitor.{
  check_circuit_breaker, reread, update_daily_pnl, DrawdownMonitor,
}
use dutchkem_trading_ai.Common.Int.{◌*ℤ◌, ◌-ℤ◌, ◌+ℤ◌, pos, ℤ}
use dutchkem_trading_ai.Common.Exec.{Result, Result-cases, ok, err, ◌>>=◌}
use dutchkem_trading_ai.Common.{
  false, ◌==◌, ◌⊎◌, ◌+◌, refl, Option-cases, find_first, arith, ℕ, Option, none, some, [], ◌∷◌,
  true, ◌≡◌, inl, inr, ◌++◌,
}
use dutchkem_trading_ai.Trading.Books.{
  trade_closed, sell, buy, delete_position, put_monitor, is_open_of, in_transaction, BrokerCall,
  Books, Trade, close_position, OrderError, type_error,
}
use dutchkem_trading_ai.Trading.Orders.{
  Closed, update_from, fresh_monitor, close_volume, record_close, profit, check_limits,
  reset_if_due, get_or_create_monitor, update_daily_monitor, close_trade, Desk,
}

abbrev sent : BrokerCall → Books → Books
sent c b = record b { broker = b.broker ++ c ∷ [] }

-- A monitor that stands in the database takes no float.
update_daily_monitor-err :
    (d : Desk) (user : ℕ) (pnl : ℤ) (m : DrawdownMonitor) (b : Books)
    → b.monitors user ≡ some m
    → m.daily_reset_at ≡ none
    → update_daily_monitor d user pnl b ≡ (err type_error, put_monitor user (reread m) b)
unfolding update_from update_daily_monitor get_or_create_monitor reset_if_due update_daily_pnl add
update_daily_monitor-err d user pnl m b h r = ground arith

-- A trader who has a monitor in the database, never reset, cannot close a trade: the broker closes
-- the position, then the update of the monitor raises TypeError, and the tables are rolled back, with
-- the trade still open in them.
pub close_trade-type_error :
    (d : Desk) (trade_id user ticket : ℕ) (v : Option ℤ) (t : Trade) (m : DrawdownMonitor)
    (b : Books)
    → find_first (is_open_of trade_id user) b.trades ≡ some t
    → d.int_of t.mt5_ticket ≡ some ticket
    → d.reply.success ≡ true
    → b.monitors user ≡ some m
    → m.daily_reset_at ≡ none
    → close_trade d trade_id user v b
      ≡ (err type_error, record b { broker = b.broker ++ close_position ticket ∷ [] })
unfolding close_trade in_transaction ◌>>=◌
close_trade-type_error d trade_id user ticket v t m b f i s h r = ground (
  arith,
  update_daily_monitor-err d user (profit d.reply.price t) m
      (record_close d t (sent (close_position ticket) b)) h r,
)

-- A call that raises leaves every table as it was, whatever the broker was sent.
close_trade-rollback :
    (d : Desk) (trade_id user : ℕ) (v : Option ℤ) (b : Books) {e : OrderError}
    → (close_trade d trade_id user v b).0 ≡ err e
    → (close_trade d trade_id user v b).1
      ≡ record b { broker = (close_trade d trade_id user v b).1.broker }
unfolding close_trade in_transaction
close_trade-rollback d trade_id user v b h = ground arith

-- the tables other than the monitor and the alerts
abbrev SameTrades : Books → Books → Type 0
SameTrades b b' = (b'.trades ≡ b.trades) × (b'.positions ≡ b.positions) × (b'.broker ≡ b.broker)

check_limits-fixed :
    (d : Desk) (user : ℕ) (m : DrawdownMonitor) (b : Books)
    → let b' = check_limits d user m b in
      SameTrades b b'
      × ((m' : DrawdownMonitor) × (b'.monitors user ≡ some m')
          × (m'.daily_trades_count ≡ m.daily_trades_count)
          × (m'.daily_pnl ≡ m.daily_pnl))
unfolding check_limits
check_limits-fixed d user m b = elim (Option-cases b.risk_params) [
  | inl e ↦ rw (e, check_limits) ((refl, refl, refl), (m, ground arith, refl, refl))
  | inr (p, e) ↦
      let m' = (check_circuit_breaker d.reaches p "standard" d.now m).1 in
      let (c, q) = check_circuit_breaker-counts d.reaches p "standard" d.now m in
      rw (e, check_limits) ((refl, refl, refl), (m', ground arith, c, q))
]

-- the first trade of a new monitor
abbrev first_monitor : Desk → ℕ → ℤ → Books → DrawdownMonitor
first_monitor d user pnl b = record (fresh_monitor (b.equity user) d.now) {
  daily_pnl = float (pos 0 +ℤ d.to_cents pnl);
  daily_trades_count = 0 + 1;
}

-- the row of a trade, by its primary key
abbrev pub trade_row : ℕ → Books → Option Trade
trade_row k b = find_first (λ r. r.id == k) b.trades

-- What a price gains on a volume: the rise of the price for a trade that bought, its fall for one
-- that sold, over the contract's size.
abbrev pub Gains : ℤ → Trade → ℤ → Type 0
Gains price t gain =
    (t.position_type ≡ buy → gain ≡ ((price -ℤ t.open_price) *ℤ t.volume) *ℤ t.contract_size)
    × (t.position_type ≡ sell → gain ≡ ((t.open_price -ℤ price) *ℤ t.volume) *ℤ t.contract_size)

-- What a trader's first closing of a trade shows of the answer and the tables.
pub record ClosedFirst (d : Desk) (user ticket : ℕ) (v : Option ℤ) (t : Trade) (b : Books)
    (r : Result OrderError Closed) (b' : Books) : Type 0 where
  pub gain : ℤ
  pub gained : Gains d.reply.price t gain
  pub answer :
      r
      ≡ ok (record {
        trade_id = t.id;
        close_price = d.reply.price;
        profit_loss = gain;
        volume_closed = close_volume v t;
      })
  pub row :
      trade_row t.id b'
      ≡ some (record t {
        close_price = some d.reply.price;
        profit_loss = d.to_cents gain;
        status = trade_closed;
        closed_at = some d.now;
      })
  pub other_rows : (k : ℕ) → (t.id == k) ≡ false → trade_row k b' ≡ trade_row k b
  pub positions : b'.positions ≡ delete_position t.id b.positions
  pub sent_once : b'.broker ≡ b.broker ++ close_position ticket ∷ []
  pub monitor : DrawdownMonitor
  pub stored : b'.monitors user ≡ some monitor
  pub one_trade : monitor.daily_trades_count ≡ 1
  pub day_gain : cents_of monitor.daily_pnl ≡ pos 0 +ℤ d.to_cents gain

check_limits-broker :
    (d : Desk) (user : ℕ) (m : DrawdownMonitor) (b : Books)
    → (check_limits d user m b).broker ≡ b.broker
check_limits-broker d user m b = let ((x, y, z), _) = check_limits-fixed d user m b in z

update_daily_monitor-broker :
    (d : Desk) (user : ℕ) (pnl : ℤ) (b : Books)
    → (update_daily_monitor d user pnl b).1.broker ≡ b.broker
unfolding update_daily_monitor update_from
update_daily_monitor-broker d user pnl b =
    let m = reset_if_due d.now (get_or_create_monitor user d.now b) in
    let u = update_daily_pnl d.percent (float (d.to_cents pnl)) d.now m in
    elim (Result-cases u.0) [
      | inl (x, e) ↦ ground (arith, e, check_limits-broker d user u.1 b)
      | inr (x, e) ↦ ground (arith, e)
    ]

-- Whatever becomes of it, a call sends the broker at most one call, to close the position of an open
-- trade of the caller with the key that it was given; where it raises, every table is as it was.
pub close_trade-sends :
    (d : Desk) (trade_id user : ℕ) (v : Option ℤ) (b : Books)
    → let (r, b') = close_trade d trade_id user v b in
      ((b'.broker ≡ b.broker)
        ⊎ ((t : Trade) × (ticket : ℕ) × (find_first (is_open_of trade_id user) b.trades ≡ some t)
            × (d.int_of t.mt5_ticket ≡ some ticket)
            × (b'.broker ≡ b.broker ++ close_position ticket ∷ [])))
      × ((e : OrderError) → r ≡ err e → b' ≡ record b { broker = b'.broker })
unfolding close_trade in_transaction ◌>>=◌
close_trade-sends d trade_id user v b = (
  (elim (Option-cases (find_first (is_open_of trade_id user) b.trades)) [
    | inl e ↦ inl (ground arith)
    | inr (t, e) ↦ elim (Option-cases (d.int_of t.mt5_ticket)) [
      | inl f ↦ inl (ground arith)
      | inr (ticket, f) ↦
          let b1 = record_close d t (sent (close_position ticket) b) in
          let u = update_daily_monitor-broker d user (profit d.reply.price t) b1 in
          inr (t, ticket, e, f, ground (arith, u))
    ]
  ]),
  λ e h. close_trade-rollback d trade_id user v b {e = e} h,
)
