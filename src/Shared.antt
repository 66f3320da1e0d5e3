-- ===== src/Shared.antt =====
-- What the components share: the throttler's storage, correlation ids, the request log, and the
-- configuration.
pub mod Throttling
pub mod Correlation
pub mod Logging
pub mod Config
pub mod Redis
mod Tests
