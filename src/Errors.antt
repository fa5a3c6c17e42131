-- ===== src/Errors.antt =====
-- Status codes of the C library and what becomes of them: libsane/src/error.rs and the readers of
-- libsane/src/device/scan.rs.
pub mod Status
pub mod Codes
pub mod Samples
mod Tests
