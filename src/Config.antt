-- ===== src/Config.antt =====
-- src/config.rs: the configuration of the service, from the environment and the arguments.
pub mod Env
pub mod Service
pub mod Strict
pub mod Bounds
pub mod Says
pub mod Sections
pub mod Accepted
