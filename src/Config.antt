-- ===== src/Config.antt =====
-- crates/pic-x-core/src/config.rs: the configuration of a deployment, assembled from layers and checked.
pub mod Parse
pub mod Keys
pub mod Realm
pub mod State
pub mod Layer
pub mod Groups
pub mod Material
pub mod Apply
pub mod Layered
pub mod Resolve
pub mod Validate
pub mod Paths
pub mod Mounted
pub mod Fixture
pub mod Deployed
