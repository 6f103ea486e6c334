-- ===== src/Domain/Reducer.antt =====
-- `reduce`, `command_to_events` and `replay` of src/domain/model.rs and src/domain/mod.rs.
pub mod Accepted
pub mod Invariant
pub mod Lifecycle
pub mod Replay
use quote_ledger.Common.{
  String, Bool, true, false, not, ◌||◌, some, List, [], ◌∷◌, ◌++◌, Result, ok, err, ◌>>=◌, ◌>>◌,
  refuse_if, str_eq, if◌then◌else◌,
}
use quote_ledger.Common.Int.{pos, leb_ℤ, ltb_ℤ}
use quote_ledger.Common.Text.{is_empty, trim}
use quote_ledger.Domain.Model.{
  DomainError, quote_already_created, duplicate_create_quote, invalid_field, quote_not_created,
  quote_already_finalized, duplicate_line_id, invalid_quantity, invalid_unit_minor,
  cannot_finalize_without_lines, LineItemState, new_line, QuoteState, default_state, is_created,
  DomainEvent, quote_created, line_item_added, quote_finalized, DomainCommand, create_quote,
  add_line_item, finalize_quote,
}
use quote_ledger.Domain.Money.{line_total_minor, total_minor}

-- `lines.iter().any(|l| l.line_id == *line_id)`
unfoldable pub has_line_id : List LineItemState → String → Bool
has_line_id [] line_id = false
has_line_id (l ∷ lines) line_id = str_eq l.line_id line_id || has_line_id lines line_id

-- `next.lines.push(line)`
abbrev pub push_line : QuoteState → LineItemState → QuoteState
push_line state line = record state { lines = state.lines ++ line ∷ [] }

unfoldable pub reduce : QuoteState → DomainEvent → Result QuoteState DomainError
reduce state (quote_created currency_code jurisdiction_id) =
    if is_created state
    then err quote_already_created
    else ok (record {
      currency_code = some currency_code;
      jurisdiction_id = some jurisdiction_id;
      finalized = state.finalized;
      lines = [];
    })
reduce state (line_item_added line_id sku description quantity unit_minor) =
    if not (is_created state)
    then err quote_not_created
    else if state.finalized
    then err quote_already_finalized
    else if has_line_id state.lines line_id
    then err duplicate_line_id
    else ok (push_line state (new_line line_id sku description quantity unit_minor))
reduce state quote_finalized =
    if not (is_created state)
    then err quote_not_created
    else if state.finalized
    then err quote_already_finalized
    else ok (record state { finalized = true })

unfoldable pub require_non_blank : String → String → Result Unit DomainError
require_non_blank field value = refuse_if (is_empty (trim value)) (invalid_field field)

-- `state.lines.is_empty()`
abbrev pub no_lines : List LineItemState → Bool
no_lines [] = true
no_lines (l ∷ lines) = false

unfoldable pub command_to_events :
    QuoteState → DomainCommand → Result (List DomainEvent) DomainError
command_to_events state (create_quote currency_code jurisdiction_id) = do
  refuse_if (is_created state) duplicate_create_quote
  require_non_blank "currency_code" currency_code
  require_non_blank "jurisdiction_id" jurisdiction_id
  ok (quote_created currency_code jurisdiction_id ∷ [])
command_to_events state (add_line_item line_id sku description quantity unit_minor) = do
  refuse_if (not (is_created state)) quote_not_created
  refuse_if state.finalized quote_already_finalized
  require_non_blank "line_id" line_id
  require_non_blank "sku" sku
  require_non_blank "description" description
  refuse_if (leb_ℤ quantity (pos 0)) invalid_quantity
  refuse_if (ltb_ℤ unit_minor (pos 0)) invalid_unit_minor
  refuse_if (has_line_id state.lines line_id) duplicate_line_id
  let line = new_line line_id sku description quantity unit_minor
  line_total_minor line
  total_minor (push_line state line)
  ok (line_item_added line_id sku description quantity unit_minor ∷ [])
command_to_events state finalize_quote = do
  refuse_if (not (is_created state)) quote_not_created
  refuse_if state.finalized quote_already_finalized
  refuse_if (no_lines state.lines) cannot_finalize_without_lines
  ok (quote_finalized ∷ [])

-- The loop of `replay`, from any state.
unfoldable pub replay_from : QuoteState → List DomainEvent → Result QuoteState DomainError
replay_from state [] = ok state
replay_from state (event ∷ events) = do state' ← reduce state event; replay_from state' events

unfoldable pub replay : List DomainEvent → Result QuoteState DomainError
replay events = replay_from default_state events
