-- ===== src/Trading/Books.antt =====
-- The rows of backend/trading/models.py that the closing and the change of a trade touch, the
-- trader's monitor, and the calls sent to the broker. Prices are in millionths, volumes and contract
-- sizes in hundredths; a profit is the exact product, in units of 10^-10.
use dutchkem_trading_ai.Common.Int.{ℤ}
use dutchkem_trading_ai.Common.Exec.{err, ok, Exec}
use dutchkem_trading_ai.Common.{
  ◌++◌, if◌then◌else◌, ℕ, String, Option, some, List, [], ◌∷◌, Bool, true, false, ◌&&◌, ◌==◌,
}
use dutchkem_trading_ai.Risk.Monitor.{DrawdownMonitor, RiskParameter, Alert}

pub data Side : Type 0 where
  buy : Side
  sell : Side

pub data TradeStatus : Type 0 where
  trade_pending trade_open trade_closed trade_cancelled trade_rejected : TradeStatus

pub record Trade : Type 0 where
  pub id : ℕ
  pub user : ℕ
  pub position_type : Side
  pub volume : ℤ
  pub contract_size : ℤ
  pub open_price : ℤ
  pub close_price : Option ℤ
  pub stop_loss : Option ℤ
  pub take_profit : Option ℤ
  pub status : TradeStatus
  pub profit_loss : ℤ
  pub mt5_ticket : String
  pub closed_at : Option ℕ

pub record Position : Type 0 where
  pub id : ℕ
  pub trade : ℕ

pub data BrokerCall : Type 0 where
  close_position : ℕ → BrokerCall
  modify_position : ℕ → ℤ → ℤ → BrokerCall

pub record Books : Type 0 where
  pub trades : List Trade
  pub positions : List Position
  pub monitors : ℕ → Option DrawdownMonitor
  pub equity : ℕ → ℤ
  pub risk_params : Option RiskParameter
  pub alerts : List Alert
  pub broker : List BrokerCall

pub data OrderError : Type 0 where
  trade_not_found : OrderError
  mt5_failed : String → OrderError
  value_error : OrderError
  type_error : OrderError

abbrev pub is_open : TradeStatus → Bool
is_open trade_open = true
is_open _ = false

-- `Trade.objects.get(id=trade_id, user=user, status="OPEN")`; `id` is the primary key
abbrev pub is_open_of : ℕ → ℕ → Trade → Bool
is_open_of trade_id user t = (t.id == trade_id) && (t.user == user) && is_open t.status

unfoldable pub save_trade : Trade → List Trade → List Trade
save_trade t [] = t ∷ []
save_trade t (r ∷ rs) = if r.id == t.id then t ∷ rs else r ∷ save_trade t rs

-- `Position.objects.get(trade=trade).delete()`: the relation is one to one
unfoldable pub delete_position : ℕ → List Position → List Position
delete_position k [] = []
delete_position k (p ∷ ps) = if p.trade == k then ps else p ∷ delete_position k ps

abbrev pub send : BrokerCall → Books → Books
send c b = record b { broker = b.broker ++ c ∷ [] }

abbrev pub put_monitor : ℕ → DrawdownMonitor → Books → Books
put_monitor user m b = record b { monitors = λ u. if u == user then some m else b.monitors u }

-- `@transaction.atomic`: an exception rolls the tables back, but what was sent to the broker stays
-- sent.
unfoldable pub in_transaction : {A : Type 0} → Exec Books OrderError A → Exec Books OrderError A
in_transaction m b =
    let (r, b') = m b in
    elim r [ ok a ↦ (ok a, b') | err e ↦ (err e, record b { broker = b'.broker }) ]
