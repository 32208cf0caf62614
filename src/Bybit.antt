-- ===== src/Bybit.antt =====
-- The exchange client `BybitClient`: src/autr/infra/bybit/client.py.
pub mod Session
pub mod Retry
pub mod Account
pub mod Orders
pub mod Linear
