-- ===== src/Protocol.antt =====
-- The control messages: src/core/protocol.
pub mod Router
