-- ===== src/Realtime.antt =====
-- The realtime layer: the Socket.IO adapter and its status, and the gateway.
pub mod Status
pub mod Adapter
pub mod Gateway
pub mod Validation
pub mod ConnectLimit
mod Tests
