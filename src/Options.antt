-- ===== src/Options.antt =====
-- The options of a device: libsane/src/device/options.rs.
pub mod Descriptor
pub mod Accessors
pub mod Access
pub mod Contract
pub mod Results
pub mod Types
pub mod Setting
pub mod Constraints
mod Tests
