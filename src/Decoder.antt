-- ===== src/Decoder.antt =====
-- The frame decoder, libsane/src/device/scan/frame_decoder.rs.
pub mod Types
pub mod Loops
pub mod Branches
pub mod Write
pub mod Rows
pub mod Image
pub mod Whole
pub mod Unpack
pub mod Bilevel
pub mod Pixels
pub mod Bands
pub mod Interleave
pub mod Assembly
pub mod Safety
pub mod Sound
pub mod SoundBands
pub mod SoundSteps
pub mod SoundParts
pub mod NoUb
pub mod States
pub mod Calls
pub mod Faults
mod Tests
