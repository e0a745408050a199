-- ===== src/Transport.antt =====
-- crates/pic-x-transport: the sockets of a surface.
pub mod Guard
