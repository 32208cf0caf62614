-- ===== src/FundingArb.antt =====
-- The funding-rate arbitrage: src/autr/services/funding_arb_executor.py and run_funding_arb.py.
pub mod Executor
pub mod Legs
pub mod Cycle
pub mod Locking
