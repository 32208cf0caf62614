-- ===== src/Domain.antt =====
-- The domain rules: src/autr/domain.
pub mod StateMachine
pub mod Reconcile
pub mod RiskPolicy
pub mod Regime
