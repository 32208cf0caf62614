-- ===== src/Db.antt =====
-- The tables that the services read and write: `TradeTrackerDB` of src/autr/infra/db/sqlite.py.
pub mod Rows
pub mod Query
pub mod Trades
pub mod Positions
pub mod Presets
pub mod SignalLog
pub mod Snapshots
