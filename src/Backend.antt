-- ===== src/Backend.antt =====
-- The parts of the Go backend that the web client relies on.
pub mod Routes
pub mod Reach
pub mod Decode
pub mod Bodies
pub mod Book
pub mod Register
pub mod Clearing
pub mod Posting
pub mod Lifecycle
