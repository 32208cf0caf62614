-- ===== src/Api.antt =====
-- The HTTP routes: src/autr/api/routes/trading.py.
pub mod Access
pub mod Values
pub mod Control
pub mod Orders
pub mod Portfolio
