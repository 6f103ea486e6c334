-- ===== src/Domain.antt =====
-- src/domain: the pure domain of quotes.
pub mod Model
pub mod Money
pub mod Reducer
