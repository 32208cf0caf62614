-- ===== src/StrategyService.antt =====
-- The strategy service: src/autr/services/strategy.py, the parameters of
-- src/autr/strategies/strategy_params.py that it fills, and `on_startup` of src/autr/ops/lifecycle.py.
pub mod Overrides
pub mod Building
pub mod Seeding
pub mod Startup
