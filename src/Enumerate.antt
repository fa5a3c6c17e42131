-- ===== src/Enumerate.antt =====
-- The devices that the C library lists: libsane/src/device/enumerate.rs.
pub mod Description
pub mod Contents
pub mod Devices
pub mod Copies
mod Tests
