-- ===== src/Input.antt =====
-- The input path: src/core/input.
pub mod MouseRouting
