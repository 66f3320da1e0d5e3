-- ===== src/Controllers.antt =====
-- The controllers: what each handler requires, and what it does behind the guards.
pub mod App
pub mod Users
pub mod Roles
pub mod Permissions
pub mod Calls
pub mod Sessions
mod Tests
