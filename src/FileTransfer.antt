-- ===== src/FileTransfer.antt =====
-- File transfer: its data frames (src/core/protocol).
pub mod DataFrame
