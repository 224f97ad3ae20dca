-- ===== src/Session.antt =====
-- The session layer: src/core/session and src/session.
pub mod Machine
pub mod Pairing
pub mod Shutdown
pub mod Capability
pub mod AccessApproval
pub mod Commands
pub mod InputFeedback
pub mod PeerLifecycle
