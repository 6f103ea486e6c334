-- ===== src/Wire.antt =====
-- The messages of proto/quote_ledger/v1/quote_ledger.proto as the generated Rust types hold them (a
-- message field and a oneof are `Option`), the errors of src/error.rs, and gRPC statuses.
use quote_ledger.Common.{ℕ, String, Bool, Option, List}
use quote_ledger.Common.Int.{ℤ}
use quote_ledger.Domain.Model.{DomainError}

pub data CommandKind : Type 0 where
  create_quote : String → String → CommandKind
  add_line_item : String → String → String → ℤ → ℤ → CommandKind
  finalize_quote : CommandKind

pub record QuoteCommand : Type 0 where
  pub kind : Option CommandKind

pub data EventKind : Type 0 where
  quote_created : String → String → EventKind
  line_item_added : String → String → String → ℤ → ℤ → EventKind
  quote_finalized : EventKind

pub record QuoteEvent : Type 0 where
  pub kind : Option EventKind

pub record StoredEvent : Type 0 where
  pub seq : ℕ
  pub quote_id : String
  pub event : Option QuoteEvent

pub record LineItemView : Type 0 where
  pub line_id : String
  pub sku : String
  pub description : String
  pub quantity : ℤ
  pub unit_minor : ℤ
  pub line_total_minor : ℤ

pub record QuoteView : Type 0 where
  pub quote_id : String
  pub currency_code : String
  pub jurisdiction_id : String
  pub finalized : Bool
  pub subtotal_minor : ℤ
  pub tax_minor : ℤ
  pub total_minor : ℤ
  pub line_items : List LineItemView

pub record AppendCommandRequest : Type 0 where
  pub client_command_id : String
  pub quote_id : String
  pub command : Option QuoteCommand

pub record AppendCommandsResponse : Type 0 where
  pub last_committed_seq : ℕ
  pub committed : List StoredEvent

pub record SubscribeQuoteRequest : Type 0 where
  pub quote_id : String
  pub after_seq : ℕ

-- `snapshot last_seq view` and `tail from_seq_exclusive to_seq_inclusive events`.
pub data QuoteUpdate : Type 0 where
  snapshot : ℕ → QuoteView → QuoteUpdate
  tail : ℕ → ℕ → List StoredEvent → QuoteUpdate

-- What rusqlite reports: the engine failed (I/O, lock, ...), a constraint refused a row, or a value
-- has not the column type that the caller asked for.
pub data SqliteError : Type 0 where
  engine constraint_violation invalid_column_type : SqliteError

pub data StoreError : Type 0 where
  sqlite : SqliteError → StoreError
  domain : DomainError → StoreError
  empty_append : StoreError
  invalid_after_seq : ℕ → ℕ → StoreError
  corrupt : String → StoreError
  idempotency_conflict : String → String → StoreError

-- The gRPC codes that the program or its transport answers with.
pub data Code : Type 0 where
  cancelled unknown invalid_argument deadline_exceeded failed_precondition out_of_range : Code
  unauthenticated resource_exhausted internal unavailable data_loss : Code

-- The text of a status: a literal, `format!("{field} {text}")`, a number between two texts, or an
-- error's `to_string()`.
pub data Message : Type 0 where
  text : String → Message
  about : String → String → Message
  numbered : String → ℕ → String → Message
  domain : DomainError → Message
  store : StoreError → Message

pub record Status : Type 0 where
  pub code : Code
  pub message : Message
