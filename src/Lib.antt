-- ===== src/Lib.antt =====
-- The trading platform of this repository, as far as it moves money, keeps its servers alive and
-- limits its risk.
--
-- Parts. The payments application (backend/payments) takes deposits and withdrawals through the
-- Korapay gateway and keeps every user's balance. The infrastructure application
-- (backend/infrastructure) watches the trading nodes and switches to a backup, keeps a pool of
-- connections to MT5, replicates and saves the trading state, and shuts down on a low battery. The
-- risk application (backend/risk_management) follows each trader's day and trips circuit breakers;
-- the trading application (backend/trading) screens orders, closes trades through the broker and
-- reports them to it.
-- The security application (backend/security) stands before the API: it scores each request, and
-- looks for attacks in the requests and logins it has seen.
--
-- Files and code.
--   Common: names of the libraries, tests and options, lists with Python's bounded deque, signed
--     numbers, dicts in insertion order, and code that changes a state and may raise, under
--     transaction.atomic or not.
--   Payments/Json, Tables: JSON replies, and the rows and tables of payments/models.py with the
--     balance of accounts.User; save, filter and update as functions on the tables.
--   Payments/Korapay: gateways/korapay.py, with the answer of each attempt as a function of its
--     number; three attempts, so no fuel is needed beyond max_retries.
--   Payments/Gateways, Deposit, Withdrawal, Webhook, Reconcile: payments/services.py, one action for
--     each method of PaymentService, and the gate of KorapayWebhookView in payments/views.py.
--   Payments/Ledger and its children: what a user's rows add up to, kept by each method.
--   Payments/Steps, Crediting, Verification, Withdrawals, Rounding, Webhooks, Hazards: what
--     follows for whole runs, for single calls, and for calls that overlap.
--   Infrastructure/Selection: the choice of a backup by priority.
--   Infrastructure/Nodes, Failover: FailoverManager of infrastructure/failover_manager.py; the children
--     Switching, Invariant, Runs, Overrides and Detection are about single failovers, the one active
--     node, runs, failovers from another node than the active one, and missed heartbeats.
--   Infrastructure/Connections, Internet: infrastructure/internet_failover.py, and the child
--     Monitoring, on tests of connections and the monitor's turn.
--   Infrastructure/Broker: BrokerFailover of infrastructure/broker_failover.py, and its child Resync,
--     on what holds after a failover.
--   Infrastructure/Documents, Sync: infrastructure/state_sync.py; the children are the buffer of
--     pending syncs (Buffer) and the stream it refines (Fifo), reads and writes on Redis (Replicas,
--     RoundTrip), the replication to a node (Resync), the loop over the buffer (Draining) and Locks.
--     The loop takes the rounds it makes as a list, of which one more than there are pending syncs
--     is enough where Redis answers.
--   Infrastructure/Persistence: infrastructure/trading_state.py, with what load_state accepts
--     (Loading) and the emergency save of infrastructure/power_protection.py (Emergency).
--   Infrastructure/Power: the rest of infrastructure/power_protection.py; Turns is about runs.
--   Infrastructure/Balancer, Pool: infrastructure/mt5_pool.py: the choice of a connection (Choice),
--     acquire (Acquiring), the invariant of all calls (Upkeep) and the health check (Checks).
--   Risk/Numeric, Monitor, Recovery: DrawdownMonitor of risk_management/models.py, with Python's int,
--     Decimal and float kept apart where adding them raises TypeError.
--   Risk/GoldEdge, DailyTarget, Targets: the breaker of GoldEdgeRiskParameter, DailyTargetLock of
--     risk_management/daily_target.py, and how the target and the breaker act together.
--   Risk/Breakers, Tiers, Days: when the breaker trips, the two tables of tiers, and a day's trades.
--   Trading/Books, Orders, Closing: close_trade, modify_trade and _update_daily_monitor of
--     trading/services.py over the rows of trading/models.py; the tables are rolled back by an
--     exception, the calls to the broker are not.
--   Trading/Validation: validate_order of trading/services.py, and what it lets through (Screening).
--   Infrastructure/Alerts: infrastructure/alert_system.py, and which alerts it holds back (Throttling).
--   Infrastructure/Cluster: infrastructure/multi_node.py with its lock, which is not reentrant; the
--     children are the choice by load (Loads), elections (Election) and a failed leader (Deadlock).
--   Security/Trust, ZeroTrust: security/zero_trust.py, first the cache and the score, then the
--     middleware; the children are about the table of paths (Levels), who passes (Admission) and
--     blocked addresses (Blocking).
--   Security/Rates, Intrusion: RateAnalyzer and LoginAnalyzer of security/intrusion_detection.py, and
--     what they find in a history of requests (Forgetting) and of attempts to log in (Logins).
--
-- Choices. Amounts are whole cents and percentages hundredths of a percent; how the database rounds
-- is a parameter. Times are whole milliseconds, or seconds where the file says so, given to each
-- call. Keys and references (uuid4), HTTP answers, the parser of a request, Redis, JSON texts,
-- digests, the HMAC and the comparison of a Decimal with a float are parameters. Every loop is over
-- a list or over the three attempts. A call under transaction.atomic runs alone, as its row locks
-- make it; where the code takes no lock, the overlap is written out.
--
-- Not modelled: the REST views other than the webhook's gate, threads and callbacks, the text of log
-- lines and alerts, and the applications that are numerics, network clients or plain tables.
pub mod Common
pub mod Payments
pub mod Infrastructure
pub mod Risk
pub mod Trading
pub mod Security
