-- ===== src/Calls.antt =====
-- The calls of the C library, libsane/src/proxied_sys.rs, and who may make them, `WithSane` of
-- libsane/src/lib.rs.
pub mod Api
pub mod Proxied
pub mod Access
pub mod Ends
