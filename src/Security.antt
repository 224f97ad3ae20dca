-- ===== src/Security.antt =====
-- The security layer: src/core/security.
pub mod FailureTracker
pub mod Permissions
