-- ===== src/Executor.antt =====
-- The order executor: src/autr/services/executor.py.
pub mod Results
pub mod Buy
pub mod Sell
pub mod Reconcile
pub mod Frame
pub mod Locking
pub mod Marks
pub mod Idempotency
pub mod Bookkeeping
pub mod Alignment
