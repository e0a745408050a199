-- ===== src/Deployment.antt =====
-- The realms of a deployment: the registry of crates/pic-x-core/src/realm.rs, how src/main.rs builds each of
-- them, and how crates/pic-x-server/src/app.rs gathers them.
pub mod Registry
pub mod Build
pub mod Reached
pub mod Apart
pub mod Gathered
mod Tests
