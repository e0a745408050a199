-- ===== src/Audit.antt =====
-- The audit trail of crates/pic-x-std.
pub mod Civil
pub mod Event
pub mod Trail
mod Tests
