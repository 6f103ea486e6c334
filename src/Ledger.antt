-- ===== src/Ledger.antt =====
-- src/ledger.rs: the ledger service.
pub mod State
pub mod Identifier
pub mod Closure
pub mod Sound
pub mod Known
pub mod Outcome
pub mod AppendOne
pub mod Safe
pub mod AppendCommands
pub mod Subscribe
pub mod SubscribeLoad
pub mod Service
pub mod Stream
