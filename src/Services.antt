-- ===== src/Services.antt =====
-- What the services share: the world that they act on, and the interfaces of the components that
-- they call.
pub mod World
pub mod Providers
pub mod Failing
