-- ===== src/Guards.antt =====
-- Who may call what: src/common/guards/permissions.guard.ts, src/common/guards/ws-jwt.guard.ts,
-- src/common/guards/ws-throttle.guard.ts, src/common/guards/user-throttler.guard.ts,
-- src/common/auth/access-token-identity.service.ts and src/common/casl/.
pub mod Permission
pub mod Identity
pub mod Throttle
pub mod Access
pub mod Samples
mod Tests
