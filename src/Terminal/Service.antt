-- ===== src/Terminal/Service.antt =====
-- KTerminalSessionService (src/terminal/terminalsessionservice.cpp): a terminal beside the picture, on
-- the side that shows it and on the side that runs it.
pub mod Types
pub mod Basics
pub mod Stopping
pub mod Output
pub mod Receiving
pub mod Opening
pub mod Control
pub mod Events
pub mod Steps
pub mod Queues
pub mod Kept
pub mod Stream
pub mod Unanswered
mod Tests
