-- ===== src/CLists.antt =====
-- The lists that the C library hands over: libsane/src/list.rs.
pub mod Items
pub mod Iterator
