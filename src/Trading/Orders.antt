-- ===== src/Trading/Orders.antt =====
-- `close_trade`, `modify_trade` and `_update_daily_monitor` of backend/trading/services.py. The
-- broker's answer, Python's `int` on a text, and the rounding of a profit to cents are parameters.
use dutchkem_trading_ai.Common.Exec.{
  pure, raise_if, modify_state, ◌>>◌, or_raise, gets, err, ◌>>=◌, ok, Exec,
}
use dutchkem_trading_ai.Common.Int.{◌*ℤ◌, ◌-ℤ◌, pos, ℤ}
use dutchkem_trading_ai.Common.{
  not, find_first, ◌||◌, ◌++◌, ltb, ◌/◌, if◌then◌else◌, ℕ, String, Option, none, some, Bool, false,
}
use dutchkem_trading_ai.Risk.Monitor.{
  update_daily_pnl, reset_daily, check_circuit_breaker, reread, DrawdownMonitor,
}
use dutchkem_trading_ai.Risk.Numeric.{is_negative, is_positive, decimal, int, float}
use dutchkem_trading_ai.Trading.Books.{
  buy, sell, mt5_failed, modify_position, close_position, send, value_error, trade_not_found,
  is_open_of, type_error, in_transaction, OrderError, delete_position, trade_closed, save_trade,
  put_monitor, Books, Trade,
}

pub record BrokerReply : Type 0 where
  pub success : Bool
  pub price : ℤ
  pub error : String

-- what a call takes from outside
pub record Desk : Type 0 where
  pub now : ℕ
  pub reply : BrokerReply
  pub int_of : String → Option ℕ
  pub to_cents : ℤ → ℤ
  pub percent : ℤ → ℤ → ℤ
  pub reaches : ℤ → ℤ → Bool

pub record Closed : Type 0 where
  pub trade_id : ℕ
  pub close_price : ℤ
  pub profit_loss : ℤ
  pub volume_closed : ℤ

-- `get_or_create` with these defaults; the other columns have the model's defaults
abbrev pub fresh_monitor : ℤ → ℕ → DrawdownMonitor
fresh_monitor equity now = record {
  peak_equity = decimal equity;
  current_equity = decimal equity;
  starting_equity_today = int (pos 0);
  drawdown_percent = pos 0;
  daily_pnl = int (pos 0);
  daily_pnl_percent = pos 0;
  daily_loss_percent = pos 0;
  daily_trades_count = 0;
  is_daily_loss_triggered = false;
  is_drawdown_triggered = false;
  is_daily_target_triggered = false;
  is_max_trades_triggered = false;
  is_circuit_breaker_triggered = false;
  gold_edge_consecutive_losses = 0;
  triggered_at = none;
  daily_reset_at = none;
  updated_at = now;
}

unfoldable pub get_or_create_monitor : ℕ → ℕ → Books → DrawdownMonitor
get_or_create_monitor user now b = elim (b.monitors user) [
  | none ↦ fresh_monitor (b.equity user) now
  | some m ↦ reread m
]

abbrev pub day_of : ℕ → ℕ
day_of t = t / 86400000

unfoldable pub reset_if_due : ℕ → DrawdownMonitor → DrawdownMonitor
reset_if_due now m = elim m.daily_reset_at [
  | none ↦ m
  | some t ↦ if ltb (day_of t) (day_of now) then reset_daily now m else m
]

-- the alerts of the check, and the monitor after it
unfoldable pub check_limits : Desk → ℕ → DrawdownMonitor → Books → Books
check_limits d user m b = elim b.risk_params [
  | none ↦ put_monitor user m b
  | some p ↦
      let (alerts, m') = check_circuit_breaker d.reaches p "standard" d.now m in
      record (put_monitor user m' b) { alerts = b.alerts ++ alerts }
]

-- the rest of `_update_daily_monitor`, from the row that was fetched
unfoldable pub update_from : Desk → ℕ → ℤ → DrawdownMonitor → Exec Books OrderError Unit
update_from d user pnl row b =
    let m = reset_if_due d.now row in
    let (r, m') = update_daily_pnl d.percent (float (d.to_cents pnl)) d.now m in
    elim r [
      | ok _ ↦ (ok tt, check_limits d user m' b)
      | err _ ↦ (err type_error, put_monitor user m b)
    ]

unfoldable pub update_daily_monitor : Desk → ℕ → ℤ → Exec Books OrderError Unit
update_daily_monitor d user pnl b = update_from d user pnl (get_or_create_monitor user d.now b) b

unfoldable pub profit : ℤ → Trade → ℤ
profit price t = elim t.position_type [
  | buy ↦ ((price -ℤ t.open_price) *ℤ t.volume) *ℤ t.contract_size
  | sell ↦ ((t.open_price -ℤ price) *ℤ t.volume) *ℤ t.contract_size
]

abbrev pub closed_trade : Desk → Trade → Trade
closed_trade d t = record t {
  close_price = some d.reply.price;
  profit_loss = d.to_cents (profit d.reply.price t);
  status = trade_closed;
  closed_at = some d.now;
}

-- a volume of zero is falsy, and counts as none
abbrev pub close_volume : Option ℤ → Trade → ℤ
close_volume none t = t.volume
close_volume (some v) t = if is_positive v || is_negative v then v else t.volume

abbrev pub record_close : Desk → Trade → Books → Books
record_close d t b = record b {
  trades = save_trade (closed_trade d t) b.trades;
  positions = delete_position t.id b.positions;
}

unfoldable pub close_trade : Desk → ℕ → ℕ → Option ℤ → Exec Books OrderError Closed
close_trade d trade_id user partial_volume = in_transaction (do
  found ← gets (λ b. find_first (is_open_of trade_id user) b.trades)
  t ← or_raise found trade_not_found
  ticket ← or_raise (d.int_of t.mt5_ticket) value_error
  modify_state (send (close_position ticket))
  raise_if (not d.reply.success) (mt5_failed d.reply.error)
  modify_state (record_close d t)
  update_daily_monitor d user (profit d.reply.price t)
  pure (record {
    trade_id = t.id;
    close_price = d.reply.price;
    profit_loss = profit d.reply.price t;
    volume_closed = close_volume partial_volume t;
  }))

abbrev pub or_zero : Option ℤ → ℤ
or_zero none = pos 0
or_zero (some z) = z

abbrev pub with_limits : Option ℤ → Option ℤ → Trade → Trade
with_limits sl tp t = record t {
  stop_loss = elim sl [ none ↦ t.stop_loss | some z ↦ some z ];
  take_profit = elim tp [ none ↦ t.take_profit | some z ↦ some z ];
}

unfoldable pub modify_trade : Desk → ℕ → ℕ → Option ℤ → Option ℤ → Exec Books OrderError Trade
modify_trade d trade_id user stop_loss take_profit = in_transaction (do
  found ← gets (λ b. find_first (is_open_of trade_id user) b.trades)
  t ← or_raise found trade_not_found
  ticket ← or_raise (d.int_of t.mt5_ticket) value_error
  modify_state (send (modify_position ticket (or_zero stop_loss) (or_zero take_profit)))
  raise_if (not d.reply.success) (mt5_failed d.reply.error)
  modify_state
      (λ b. record b { trades = save_trade (with_limits stop_loss take_profit t) b.trades })
  pure (with_limits stop_loss take_profit t))
