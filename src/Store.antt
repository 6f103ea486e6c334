-- ===== src/Store.antt =====
-- src/store.rs: the event store on SQLite.
pub mod Engine
pub mod Tables
pub mod Codec
pub mod Append
pub mod Runs
pub mod Match
pub mod Select
pub mod Fresh
pub mod Insert
pub mod Payloads
pub mod History
pub mod Contract
pub mod Atomic
