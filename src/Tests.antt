-- ===== src/Tests.antt =====
-- Tests: the theorems at concrete inputs.
mod Fixtures
mod Adapter
mod Tables
mod Client
mod Engines
mod Orders
mod Ticks
mod Books
mod Regimes
mod Routes
mod Startup
