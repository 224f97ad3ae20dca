-- ===== src/Transport.antt =====
-- The transport layer: src/core/transport.
pub mod OutboundQueue
