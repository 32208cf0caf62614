-- ===== src/Lib.antt =====
-- autr-back: an automatic trading system for Bybit, in Python (src/autr). Services talk through Redis:
-- a collector pushes ticks, a strategy consumer turns them into signals, an executor consumer turns the
-- signals into orders and keeps the database in step, a watchdog reads heartbeats, and an arbitrage
-- service holds a spot position against a perpetual short. This library models the parts below, as
-- functions by clauses that run, and proves what they guarantee.
--
-- Which file models which part:
-- - Prelude: tests on numbers and texts, lists, dicts as association lists, integers, and the monad of
--   calls that return or raise, with `catch` and `finally`.
-- - Float: Python floats as an interface, with the order laws of IEEE 754 as a named hypothesis
--   (IsOrdered), and an instance that runs (Fixed), on which the tests are evaluated.
-- - Domain: src/autr/domain/state_machine.py, reconcile.py and risk_policy.py, function by function, and
--   regime.py: the classification and its indicators, over numpy and pandas as parameters (Regime).
-- - Redis: `InMemoryRedis` of src/autr/infra/redis.py. A call takes the reading of the clock, in
--   nanoseconds, and the state: the store with its expiry times, and the queues.
-- - Db: src/autr/infra/db/sqlite.py, table by table: `trades` and `positions` in one state (Rows), the
--   signal log, the presets and the snapshots each in their own; Query has ORDER BY and LIMIT. The
--   positions are compared with a map from ids to rows (Positions/Refinement).
-- - Bybit: src/autr/infra/bybit/client.py over the session of the pybit library, a parameter: `_call` with
--   its retries, balances and order sizes, spot orders and perpetual orders.
-- - Services: the interfaces through which the services use the database and the exchange (World), and
--   the models of Db and Bybit as their instances (Providers).
--   The store of the position service and of the manual orders may fail at any call, before it has
--   written or after its commit, as any function of the call and the database tells (Faults, Failing); a
--   NaN in a column that is NOT NULL is such a fault. `sqlite`, and `trades_only` of
--   Strategies/Runner/Trades, stand for a store that raises nothing.
-- - Executor: src/autr/services/executor.py: `execute_buy`, `execute_sell` and `reconcile`, in stages that
--   follow its numbered steps.
-- - Consumer: one iteration of `run` in src/autr/services/run_executor_consumer.py.
-- - Strategies: `decide` of the engines in src/autr/strategies, over the rows that pandas computes; and
--   what the four strategy classes share, one round and the restoring of state (Runner).
-- - StrategyConsumer: `_process_tick`, `_check_strategy_change` and `_maybe_auto_switch` of
--   src/autr/services/run_strategy_consumer.py; Strategies/Engine has the strategies it chooses from.
-- - PositionService: src/autr/services/position_service.py over a store taken through an interface: opening
--   and closing, the derived fields and the automatic closing (Criteria).
-- - Api: src/autr/api/routes/trading.py: the checks of keys, names and values, the switches in Redis, the
--   presets, manual orders, the positions' routes and the portfolio. An HTTPException is a value.
-- - StrategyService: src/autr/services/strategy.py, src/autr/strategies/strategy_params.py and the
--   `on_startup` of src/autr/ops/lifecycle.py: which strategy is made, and with which parameters.
-- - FundingArb: src/autr/services/funding_arb_executor.py and `_cycle` of run_funding_arb.py.
-- - Watchdog: `check_once` of src/autr/services/run_watchdog.py.
-- - Tests: the theorems at concrete inputs.
--
-- Conventions: an exception is a value of `Outcome`, and what was written before it stays written. The
-- clock is read from the outside at each call. The loops are recursions on a list or on the number of
-- attempts left, four after the first, so no fuel is needed. `await` is where tasks interleave: the
-- lock is proved for steps in any order (Redis/Exclusion), a method body is modelled in one piece.
-- A quantity text is modelled by the float that it denotes.
--
-- Not modelled: `RealRedis`, the PostgreSQL store and the time-series store, whose work is done by their
-- servers; the collector; the frames of candles, which pandas computes; the routes that only pass a
-- query on, and the texts of the signals' route; configuration, logging, and the webhook, which may
-- raise.
pub mod Prelude
pub mod Float
pub mod Domain
pub mod Redis
pub mod Db
pub mod Bybit
pub mod Services
pub mod Executor
pub mod Consumer
pub mod Strategies
pub mod StrategyConsumer
pub mod PositionService
pub mod Api
pub mod FundingArb
pub mod StrategyService
pub mod Watchdog
pub mod Tests
