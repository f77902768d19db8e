-- ===== src/Trading/Examples.antt =====
-- Tests of the closing of trades, backend/trading/services.py, and its theorems at concrete inputs.
use dutchkem_trading_ai.Trading.Closing.{close_trade-sends}
use dutchkem_trading_ai.Common.Int.{◌-ℤ◌, ◌*ℤ◌, negsuc, leb_ℤ, ℤ, pos}
use dutchkem_trading_ai.Common.Exec.{err}
use dutchkem_trading_ai.Common.{
  ◌⊎◌, find_first, ◌/◌, ℕ, String, Option, none, some, [], ◌∷◌, Bool, true, ◌≡◌, refl,
}
use dutchkem_trading_ai.Risk.Monitor.{DrawdownMonitor}
use dutchkem_trading_ai.Trading.Books.{
  is_open_of, Books, Trade, close_position, buy, trade_open, OrderError,
}
use dutchkem_trading_ai.Trading.Orders.{fresh_monitor, Desk, close_trade, profit}

-- one lot of EURUSD, bought at 1.10
abbrev euro : Trade
euro = record {
  id = 1;
  user = 7;
  position_type = buy;
  volume = pos 100;
  contract_size = pos 10000000;
  open_price = pos 1100000;
  close_price = none;
  stop_loss = none;
  take_profit = none;
  status = trade_open;
  profit_loss = pos 0;
  mt5_ticket = "55";
  closed_at = none;
}

abbrev nobody : ℕ → Option DrawdownMonitor
nobody u = none

abbrev books : Books
books = record {
  trades = euro ∷ [];
  positions = record { id = 9; trade = 1 } ∷ [];
  monitors = nobody;
  equity = λ u. pos 1000000;
  risk_params = none;
  alerts = [];
  broker = [];
}

abbrev to_int : String → Option ℕ
to_int s = some 55

abbrev divide : ℤ → ℤ
divide (pos n) = pos (n / 100000000)
divide (negsuc n) = negsuc (n / 100000000)

abbrev no_percent : ℤ → ℤ → ℤ
no_percent a b = a

abbrev exact : ℤ → ℤ → Bool
exact x y = leb_ℤ y x

-- the broker closes at 1.11
abbrev desk : Desk
desk = record {
  now = 5;
  reply = record { success = true; price = pos 1110000; error = "" };
  int_of = to_int;
  to_cents = divide;
  percent = no_percent;
  reaches = exact;
}

-- a profit of 1,000.00
thousand : divide (profit (pos 1110000) euro) ≡ pos 100000
unfolding profit ◌*ℤ◌ ◌-ℤ◌
thousand = refl

abbrev with_monitor : Books
with_monitor = record books { monitors = λ u. some (fresh_monitor (pos 1000000) 3) }

close_trade-sends_example :
    let (r, b') = close_trade desk 1 7 none books in
    ((b'.broker ≡ [])
      ⊎ ((t : Trade) × (ticket : ℕ) × (find_first (is_open_of 1 7) books.trades ≡ some t)
          × (to_int t.mt5_ticket ≡ some ticket)
          × (b'.broker ≡ close_position ticket ∷ [])))
    × ((e : OrderError) → r ≡ err e → b' ≡ record books { broker = b'.broker })
close_trade-sends_example = close_trade-sends desk 1 7 none books
