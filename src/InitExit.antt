-- ===== src/InitExit.antt =====
-- Initialising and leaving the C library, and the credentials that it asks for:
-- libsane/src/init_exit.rs.
pub mod Credentials
pub mod Fields
pub mod Process
pub mod Threads
pub mod Exclusion
pub mod Progress
pub mod Provided
mod Tests
