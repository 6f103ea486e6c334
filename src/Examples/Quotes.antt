-- ===== src/Examples/Quotes.antt =====
-- A quote with a line, as commands build it (src/domain/model.rs).
use native.Mathlib.Omega.{arith}
use quote_ledger.Common.{◌≡◌, refl, true, false, some, [], ◌∷◌, ok}
use quote_ledger.Common.Int.{pos, try_i64}
use quote_ledger.Common.Text.{trim}
use quote_ledger.Domain.Model.{
  LineItemState, new_line, QuoteState, DomainEvent, quote_created, line_item_added, quote_finalized,
  DomainCommand, create_quote, add_line_item, finalize_quote,
}
use quote_ledger.Domain.Money.{
  line_total_minor, add_line_totals, subtotal_minor, tax_rate_bps, tax_minor, total_minor,
}
use quote_ledger.Domain.Reducer.{reduce, command_to_events, has_line_id, replay, replay_from}
use quote_ledger.Domain.Reducer.Invariant.{IsValid}

abbrev pub desk : LineItemState
desk = new_line "l-1" "DESK" "Desk" (pos 2) (pos 50_000)

abbrev pub create : DomainCommand
create = create_quote "USD" "US-CA"

abbrev pub add_desk : DomainCommand
add_desk = add_line_item "l-1" "DESK" "Desk" (pos 2) (pos 50_000)

abbrev pub created : DomainEvent
created = quote_created "USD" "US-CA"

abbrev pub added_desk : DomainEvent
added_desk = line_item_added "l-1" "DESK" "Desk" (pos 2) (pos 50_000)

abbrev pub open_quote : QuoteState
open_quote = record {
  currency_code = some "USD";
  jurisdiction_id = some "US-CA";
  finalized = false;
  lines = desk ∷ [];
}

abbrev pub closed_quote : QuoteState
closed_quote = record open_quote { finalized = true }

pub open_quote-IsValid : IsValid open_quote
unfolding trim has_line_id total_minor tax_minor subtotal_minor add_line_totals line_total_minor
    tax_rate_bps try_i64
open_quote-IsValid = record {
  untouched = λ missing. cc;
  named = λ _. (refl, refl);
  lines = ((omega arith, omega arith, refl, refl, refl), tt);
  distinct = (refl, tt);
  closed_with_lines = λ closed. cc;
  priced = refl;
}

pub open_quote_replayed : replay (created ∷ added_desk ∷ []) ≡ ok open_quote
unfolding replay replay_from reduce has_line_id
open_quote_replayed = refl

pub finalize_accepted : command_to_events open_quote finalize_quote ≡ ok (quote_finalized ∷ [])
unfolding command_to_events
finalize_accepted = refl
