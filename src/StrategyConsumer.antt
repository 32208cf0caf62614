-- ===== src/StrategyConsumer.antt =====
-- The strategy consumer: `StrategyConsumer` of src/autr/services/run_strategy_consumer.py.
pub mod State
pub mod Deciding
pub mod Switching
pub mod Ticking
pub mod Signals
