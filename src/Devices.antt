-- ===== src/Devices.antt =====
-- Devices that are open: libsane/src/device.rs.
pub mod Handle
pub mod Scanning
pub mod Session
pub mod Kept
pub mod KeptBySet
pub mod KeptByFrame
pub mod KeptByScan
pub mod Closing
mod Tests
