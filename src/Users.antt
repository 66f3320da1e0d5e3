-- ===== src/Users.antt =====
-- The users service.
pub mod JoinRows
pub mod Lookup
pub mod Listing
pub mod Service
pub mod Create
mod Tests
