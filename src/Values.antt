-- ===== src/Values.antt =====
-- The values of device options: libsane/src/value.rs.
pub mod Value
pub mod Owned
pub mod Words
mod Tests
