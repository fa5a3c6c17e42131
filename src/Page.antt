-- ===== src/Page.antt =====
-- The programs of libsane/examples.
pub mod Prompt
pub mod Choice
pub mod Listing
pub mod Pam
pub mod PamReader
pub mod PamFile
pub mod PamFormat
pub mod Scanning
pub mod OneFrame
pub mod Files
pub mod Main
pub mod WholeRun
mod Tests
mod RunTests
