-- ===== src/Realm.antt =====
-- The realm surface, crates/pic-x-realm.
pub mod AttesterKeys
pub mod Checkpoints
pub mod Conformance
pub mod Der
pub mod Exchange
pub mod Profile
mod Tests
