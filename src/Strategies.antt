-- ===== src/Strategies.antt =====
-- The signal engines: src/autr/strategies.
pub mod Decision
pub mod RegimeTrend
pub mod MeanReversion
pub mod BreakoutVolume
pub mod DualTimeframe
pub mod FundingArb
pub mod Engine
pub mod Trailing
pub mod Runner
