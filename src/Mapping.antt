-- ===== src/Mapping.antt =====
-- src/mapping.rs: between the messages of the wire and the domain.
pub mod RoundTrip
pub mod View
use quote_ledger.Common.{
  ◌≡◌, String, Option, none, some, List, [], ◌∷◌, Result, ok, err, ◌>>=◌, ok_or, map_err,
}
use quote_ledger.Common.Int.{ℤ}
use quote_ledger.Domain.Model.{
  DomainError, LineItemState, QuoteState, default_state, DomainEvent, DomainCommand, currency_code,
  jurisdiction_id,
}
use quote_ledger.Domain.Model
use quote_ledger.Domain.Money
use quote_ledger.Domain.Reducer.{reduce}
use quote_ledger.Wire.{
  CommandKind, QuoteCommand, EventKind, QuoteEvent, StoredEvent, LineItemView, QuoteView,
  StoreError, corrupt, empty_append, invalid_after_seq, sqlite, idempotency_conflict, Code, Message,
  Status,
}

abbrev pub status : Code → Message → Status
status code message = record { code = code; message = message }

command_of_kind : CommandKind → DomainCommand
command_of_kind (CommandKind.create_quote cur jur) = DomainCommand.create_quote cur jur
command_of_kind (CommandKind.add_line_item id sku desc q u) =
    DomainCommand.add_line_item id sku desc q u
command_of_kind CommandKind.finalize_quote = DomainCommand.finalize_quote

unfoldable pub proto_command_to_domain : QuoteCommand → Result DomainCommand Status
unfolding command_of_kind
proto_command_to_domain cmd = do
  k ← ok_or (status Code.invalid_argument (Message.text "command.kind required")) cmd.kind
  ok (command_of_kind k)

unfoldable pub domain_event_to_proto : DomainEvent → QuoteEvent
domain_event_to_proto (DomainEvent.quote_created cur jur) = record {
  kind = some (EventKind.quote_created cur jur);
}
domain_event_to_proto (DomainEvent.line_item_added id sku desc q u) = record {
  kind = some (EventKind.line_item_added id sku desc q u);
}
domain_event_to_proto DomainEvent.quote_finalized = record { kind = some EventKind.quote_finalized }

event_of_kind : EventKind → DomainEvent
event_of_kind (EventKind.quote_created cur jur) = DomainEvent.quote_created cur jur
event_of_kind (EventKind.line_item_added id sku desc q u) =
    DomainEvent.line_item_added id sku desc q u
event_of_kind EventKind.quote_finalized = DomainEvent.quote_finalized

unfoldable pub stored_event_to_domain_event_store : StoredEvent → Result DomainEvent StoreError
unfolding event_of_kind
stored_event_to_domain_event_store stored = do
  ev ← ok_or (corrupt "stored event missing payload") stored.event
  k ← ok_or (corrupt "stored event missing kind") ev.kind
  ok (event_of_kind k)

-- The loop of `replay_stored_to_state`.
unfoldable pub replay_stored_from : QuoteState → List StoredEvent → Result QuoteState StoreError
replay_stored_from state [] = ok state
replay_stored_from state (stored ∷ events) = do
  ev ← stored_event_to_domain_event_store stored
  state' ← map_err StoreError.domain (reduce state ev)
  replay_stored_from state' events

unfoldable pub replay_stored_to_state : List StoredEvent → Result QuoteState StoreError
replay_stored_to_state events = replay_stored_from default_state events

abbrev pub line_view : LineItemState → ℤ → LineItemView
line_view l total = record {
  line_id = l.line_id;
  sku = l.sku;
  description = l.description;
  quantity = l.quantity;
  unit_minor = l.unit_minor;
  line_total_minor = total;
}

-- The loop over `state.lines()` of `quote_state_to_view`.
unfoldable pub line_views : List LineItemState → Result (List LineItemView) DomainError
line_views [] = ok []
line_views (l ∷ lines) = do
  total ← Money.line_total_minor l
  rest ← line_views lines
  ok (line_view l total ∷ rest)

unfoldable pub quote_state_to_view : String → QuoteState → Result QuoteView DomainError
quote_state_to_view quote_id state = do
  subtotal ← Money.subtotal_minor state
  tax ← Money.tax_minor state
  total ← Money.total_minor state
  line_items ← line_views state.lines
  ok (record {
    quote_id = quote_id;
    currency_code = currency_code state;
    jurisdiction_id = jurisdiction_id state;
    finalized = state.finalized;
    subtotal_minor = subtotal;
    tax_minor = tax;
    total_minor = total;
    line_items = line_items;
  })

domain_error_code : DomainError → Code
domain_error_code DomainError.quote_already_created = Code.failed_precondition
domain_error_code DomainError.duplicate_create_quote = Code.failed_precondition
domain_error_code (DomainError.invalid_field _) = Code.invalid_argument
domain_error_code DomainError.invalid_quantity = Code.invalid_argument
domain_error_code DomainError.invalid_unit_minor = Code.invalid_argument
domain_error_code DomainError.duplicate_line_id = Code.invalid_argument
domain_error_code DomainError.quote_not_created = Code.failed_precondition
domain_error_code DomainError.quote_already_finalized = Code.failed_precondition
domain_error_code DomainError.cannot_finalize_without_lines = Code.failed_precondition
domain_error_code DomainError.integer_overflow = Code.out_of_range

unfoldable pub domain_error_to_status : DomainError → Status
unfolding domain_error_code
domain_error_to_status e = status (domain_error_code e) (Message.domain e)

unfoldable pub store_error_to_status : StoreError → Status
unfolding domain_error_to_status
store_error_to_status (invalid_after_seq after last) =
    status Code.invalid_argument (Message.store (invalid_after_seq after last))
store_error_to_status empty_append = status Code.invalid_argument (Message.store empty_append)
store_error_to_status (corrupt why) = status Code.data_loss (Message.store (corrupt why))
store_error_to_status (sqlite e) = status Code.internal (Message.store (sqlite e))
store_error_to_status (StoreError.domain e) = domain_error_to_status e
store_error_to_status (idempotency_conflict q c) =
    status Code.failed_precondition (Message.store (idempotency_conflict q c))
