-- ===== src/Version.antt =====
-- The numbers of a version in one word: `Version` of libsane/src/lib.rs and the functions of
-- libsane-sys/src/lib.rs.
pub mod Code
pub mod Digits
pub mod Numbers
pub mod Text
mod Tests
