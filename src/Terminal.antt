-- ===== src/Terminal.antt =====
-- The terminal: src/core/terminal, its data frames, and the relay process's frames.
pub mod Relay
pub mod DataFrame
pub mod WriteAll
pub mod Machine
pub mod Service
pub mod Commands
