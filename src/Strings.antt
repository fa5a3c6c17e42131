-- ===== src/Strings.antt =====
-- Strings of SANE: libsane/src/string.rs and the helpers of libsane/src/slice_util.rs.
pub mod Buffer
pub mod Content
pub mod Compare
pub mod Order
pub mod Display
pub mod Borrow
mod Tests
