-- ===== src/Scan.antt =====
-- Reading frames from a device: libsane/src/device/scan.rs.
pub mod Reader
pub mod Filling
pub mod Delivery
pub mod Feeding
pub mod Room
pub mod Growing
pub mod Termination
pub mod Session
pub mod FrameReader
pub mod Samples
mod Tests
