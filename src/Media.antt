-- ===== src/Media.antt =====
-- The media queues: src/core/media.
pub mod LatestFrame
