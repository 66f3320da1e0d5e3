-- ===== src/Auth.antt =====
-- The authentication service.
pub mod Session
pub mod Refresh
pub mod Credentials
pub mod Reset
pub mod Histories
pub mod RoundTrips
pub mod Samples
mod Tests
