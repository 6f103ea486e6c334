-- ===== src/Examples.antt =====
-- Runs of the program at concrete inputs.
mod PlainCodec
pub use PlainCodec.{plain_codec, payload, payload_lem, plain_codec-IsLossless}
mod Quotes
pub use Quotes.*
mod Database
pub use Database.*
mod DomainRuns
mod StoreRuns
mod LedgerRuns
mod GateRuns
mod SubscribeRuns
mod StreamRuns
mod ProcessRuns
mod AppendRuns
mod RestartRuns
mod CallRuns
