-- ===== src/Domain/Reducer/Accepted.antt =====
-- What an accepted command has passed, which event it emits, and that the event is reduced
-- (src/domain/model.rs).
use quote_ledger.Common.{◌≡◌, String, Bool, true, false, List, [], ◌∷◌, ok, is_ok, arith, some}
use quote_ledger.Common.Int.{ℤ, pos, ◌≤ℤ◌}
use quote_ledger.Common.Text.{is_empty, trim}
use quote_ledger.Domain.Model.{
  LineItemState, new_line, QuoteState, is_created, DomainEvent, quote_created, line_item_added,
  quote_finalized, DomainCommand, create_quote, add_line_item, finalize_quote,
}
use quote_ledger.Domain.Money.{total_minor}
use quote_ledger.Domain.Reducer.{
  has_line_id, push_line, reduce, require_non_blank, no_lines, command_to_events,
}

abbrev pub is_blank : String → Bool
is_blank s = is_empty (trim s)

abbrev pub LineIsValid : LineItemState → Type 0
LineIsValid line =
    (pos 1 ≤ℤ line.quantity)
    × (pos 0 ≤ℤ line.unit_minor)
    × (is_blank line.line_id ≡ false)
    × (is_blank line.sku ≡ false)
    × (is_blank line.description ≡ false)

-- The event that a command stands for.
unfoldable pub event_of : DomainCommand → DomainEvent
event_of (create_quote cur jur) = quote_created cur jur
event_of (add_line_item id sku desc q u) = line_item_added id sku desc q u
event_of finalize_quote = quote_finalized

-- An accepted command emits its event and nothing else.
pub command_emits :
    (s : QuoteState) (command : DomainCommand) {events : List DomainEvent}
    → command_to_events s command ≡ ok events
    → events ≡ event_of command ∷ []
unfolding command_to_events require_non_blank event_of
command_emits s (create_quote cur jur) h = ground arith
command_emits s (add_line_item id sku desc q u) h = ground arith
command_emits s finalize_quote h = ground arith

module _ (s : QuoteState) (cur jur : String) {events : List DomainEvent}
    (accepted : command_to_events s (create_quote cur jur) ≡ ok events) where
  pub create_guards : (is_created s ≡ false) × (is_blank cur ≡ false) × (is_blank jur ≡ false)
  unfolding command_to_events require_non_blank
  create_guards = ground arith

  pub create_reduces :
      reduce s (quote_created cur jur)
      ≡ ok (record {
        currency_code = some cur;
        jurisdiction_id = some jur;
        finalized = s.finalized;
        lines = [];
      })
  unfolding command_to_events require_non_blank reduce
  create_reduces = ground arith

-- What the guards of `AddLineItem` have checked when it is accepted.
module _ (s : QuoteState) (id sku desc : String) (q u : ℤ) {events : List DomainEvent}
    (accepted : command_to_events s (add_line_item id sku desc q u) ≡ ok events) where
  pub add_reduces :
      reduce s (line_item_added id sku desc q u) ≡ ok (push_line s (new_line id sku desc q u))
  unfolding command_to_events require_non_blank reduce
  add_reduces = ground arith

  pub add_line_valid : LineIsValid (new_line id sku desc q u)
  unfolding command_to_events require_non_blank
  add_line_valid = ground arith

  pub add_priced : is_ok (total_minor (push_line s (new_line id sku desc q u))) ≡ true
  unfolding command_to_events require_non_blank
  add_priced = ground arith

  pub add_fresh : (has_line_id s.lines id ≡ false) × (is_created s ≡ true) × (s.finalized ≡ false)
  unfolding command_to_events require_non_blank
  add_fresh = ground arith

module _ (s : QuoteState) {events : List DomainEvent}
    (accepted : command_to_events s finalize_quote ≡ ok events) where
  pub finalize_guards : (is_created s ≡ true) × (s.finalized ≡ false) × (no_lines s.lines ≡ false)
  unfolding command_to_events
  finalize_guards = ground arith

  pub finalize_reduces : reduce s quote_finalized ≡ ok (record s { finalized = true })
  unfolding command_to_events reduce
  finalize_reduces = ground arith
