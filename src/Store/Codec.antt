-- ===== src/Store/Codec.antt =====
-- The protobuf encoding of events, which the library prost implements and src/store.rs calls: a
-- parameter of the store, with what its documentation promises as hypotheses.
use quote_ledger.Common.{◌≡◌, String, Result, ok}
use quote_ledger.Wire.{QuoteEvent}
use quote_ledger.Store.Tables.{Bytes}

pub record Codec : Type 0 where
  pub encode : QuoteEvent → Result Bytes String
  pub decode : Bytes → Result QuoteEvent String

-- A growable buffer holds every encoding, and what has been encoded is decoded to the same message.
pub record IsLossless (codec : Codec) : Type 0 where
  pub encodes : (ev : QuoteEvent) → (b : Bytes) × (codec.encode ev ≡ ok b)
  pub decodes : (ev : QuoteEvent) (b : Bytes) → codec.encode ev ≡ ok b → codec.decode b ≡ ok ev
