-- ===== src/Domain/Reducer/Lifecycle.antt =====
-- The life of a quote (src/domain/model.rs) as a machine of three phases.
use quote_ledger.Common.{◌≡◌, Bool, true, false, not, ◌&&◌, ok, is_ok, arith, if◌then◌else◌}
use quote_ledger.Domain.Model.{
  QuoteState, is_created, DomainEvent, quote_created, line_item_added, quote_finalized,
  DomainCommand, create_quote, add_line_item, finalize_quote,
}
use quote_ledger.Domain.Reducer.{has_line_id, reduce, command_to_events}
use quote_ledger.Domain.Reducer.Invariant.{IsValid}

pub data Phase : Type 0 where
  absent drafting closed : Phase

unfoldable pub phase : QuoteState → Phase
phase state =
    if not (is_created state) then absent else if state.finalized then closed else drafting

-- The events that a phase admits.
abbrev pub enabled : Phase → DomainEvent → Bool
enabled absent (quote_created _ _) = true
enabled drafting (line_item_added _ _ _ _ _) = true
enabled drafting quote_finalized = true
enabled _ _ = false

abbrev pub has_new_id : QuoteState → DomainEvent → Bool
has_new_id state (line_item_added id _ _ _ _) = not (has_line_id state.lines id)
has_new_id state _ = true

abbrev pub phase_after : DomainEvent → Phase
phase_after (quote_created _ _) = drafting
phase_after (line_item_added _ _ _ _ _) = drafting
phase_after quote_finalized = closed

-- On a valid state an event is reduced exactly when the phase of the quote (absent, drafting,
-- closed) enables it and, for a line, its id is new.
pub reduce-enabled :
    (s : QuoteState) (e : DomainEvent)
    → IsValid s
    → is_ok (reduce s e) ≡ (enabled (phase s) e && has_new_id s e)
unfolding reduce phase
reduce-enabled s (quote_created cur jur) v = ground arith
reduce-enabled s (line_item_added id sku desc q u) v = ground arith
reduce-enabled s quote_finalized v = ground arith

-- An event that is reduced takes a valid state to the phase that the event stands for.
phase-reduce :
    (s : QuoteState) (e : DomainEvent) {s' : QuoteState}
    → IsValid s
    → reduce s e ≡ ok s'
    → phase s' ≡ phase_after e
unfolding reduce phase
phase-reduce s (quote_created cur jur) v h = ground (arith, v.untouched)
phase-reduce s (line_item_added id sku desc q u) v h = ground arith
phase-reduce s quote_finalized v h = ground arith

closed_refuses_command :
    (s : QuoteState) (c : DomainCommand) → phase s ≡ closed → is_ok (command_to_events s c) ≡ false
unfolding phase command_to_events
closed_refuses_command s (create_quote cur jur) h = ground arith
closed_refuses_command s (add_line_item id sku desc q u) h = ground arith
closed_refuses_command s finalize_quote h = ground arith

closed_refuses_event :
    (s : QuoteState) (e : DomainEvent) → phase s ≡ closed → is_ok (reduce s e) ≡ false
unfolding phase reduce
closed_refuses_event s (quote_created cur jur) h = ground arith
closed_refuses_event s (line_item_added id sku desc q u) h = ground arith
closed_refuses_event s quote_finalized h = ground arith

-- In a closed state every command is refused and no event is reduced.
closed_is_final :
    (s : QuoteState) (c : DomainCommand) (e : DomainEvent)
    → phase s ≡ closed
    → (is_ok (command_to_events s c) ≡ false) × (is_ok (reduce s e) ≡ false)
closed_is_final s c e h = (closed_refuses_command s c h, closed_refuses_event s e h)
