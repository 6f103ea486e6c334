-- ===== src/Examples/DomainRuns.antt =====
-- The domain's theorems at the quote of one desk.
use quote_ledger.Common.{
  ◌<◌, arith, ◌≡◌, refl, ◌&&◌, [], ◌∷◌, All, ok, err, is_ok, map_err, if◌then◌else◌, map,
}
use quote_ledger.Common.Int.{pos, ◌+ℤ◌, magnitude, fits_i64, try_i64}
use quote_ledger.Domain.Model.{
  jurisdiction_id, currency_code, integer_overflow, QuoteState, quote_finalized, finalize_quote,
}
use quote_ledger.Domain.Money.{
  line_total_minor, add_line_totals, subtotal_minor, tax_rate_bps, tax_minor, total_minor,
}
use quote_ledger.Domain.Money.Exact.{
  amount, exact_subtotal, exact_tax, subtotal_fits, total_minor-exact,
}
use quote_ledger.Domain.Money.Width.{i128_limit, money_fits_i128}
use quote_ledger.Domain.Reducer.{reduce, replay}
use quote_ledger.Domain.Reducer.Accepted.{event_of}
use quote_ledger.Domain.Reducer.Invariant.{IsValid, accepted-IsValid}
use quote_ledger.Domain.Reducer.Lifecycle.{phase, closed, enabled, has_new_id, reduce-enabled}
use quote_ledger.Wire.{QuoteView, StoreError}
use quote_ledger.Mapping.{
  quote_state_to_view, domain_event_to_proto, stored_event_to_domain_event_store,
  replay_stored_to_state,
}
use quote_ledger.Mapping.RoundTrip.{
  stored_event, stored_from, stored_event_round_trip, replay_stored-eq-replay,
}
use quote_ledger.Mapping.View.{shown_line, add_view_totals, view_of_valid}
use quote_ledger.Examples.Quotes.{
  desk, created, added_desk, open_quote, closed_quote, open_quote-IsValid, finalize_accepted,
}

-- Two desks at 500.00 with 8% of tax.
total_of_desks : total_minor open_quote ≡ ok (pos 108_000)
unfolding total_minor tax_minor subtotal_minor add_line_totals line_total_minor tax_rate_bps try_i64
total_of_desks = refl

accepted-IsValid_example :
    (s' : QuoteState) × (reduce open_quote (event_of finalize_quote) ≡ ok s') × IsValid s'
accepted-IsValid_example =
    accepted-IsValid open_quote finalize_quote open_quote-IsValid finalize_accepted

total_minor-exact_example : total_minor open_quote ≡ (
    if subtotal_fits open_quote && fits_i64 (exact_subtotal open_quote +ℤ exact_tax open_quote)
    then ok (exact_subtotal open_quote +ℤ exact_tax open_quote)
    else err integer_overflow)
total_minor-exact_example = total_minor-exact open_quote

one_line_total : add_line_totals (pos 0) (desk ∷ []) ≡ ok (pos 100_000)
unfolding add_line_totals line_total_minor try_i64
one_line_total = refl

money_fits_i128_example :
    All (λ line. magnitude (amount line) < i128_limit) (desk ∷ desk ∷ [])
    × (magnitude (pos 100_000) < i128_limit)
money_fits_i128_example =
    money_fits_i128 (desk ∷ []) (desk ∷ [])
      ((omega arith, omega arith), ((omega arith, omega arith), tt)) (omega arith) one_line_total

reduce-enabled_example :
    is_ok (reduce open_quote added_desk)
    ≡ (enabled (phase open_quote) added_desk && has_new_id open_quote added_desk)
reduce-enabled_example = reduce-enabled open_quote added_desk open_quote-IsValid

finalize_reduced : reduce open_quote quote_finalized ≡ ok closed_quote
unfolding reduce
finalize_reduced = refl

closed_quote-phase : phase closed_quote ≡ closed
unfolding phase
closed_quote-phase = refl

stored_event_round_trip_example :
    stored_event_to_domain_event_store (stored_event "q-1" 2 (domain_event_to_proto added_desk))
    ≡ ok added_desk
stored_event_round_trip_example = stored_event_round_trip "q-1" 2 added_desk

replay_stored-eq-replay_example :
    replay_stored_to_state
      (stored_from "q-1" 1 (map domain_event_to_proto (created ∷ added_desk ∷ [])))
    ≡ map_err StoreError.domain (replay (created ∷ added_desk ∷ []))
replay_stored-eq-replay_example = replay_stored-eq-replay "q-1" 1 (created ∷ added_desk ∷ [])

view_of_valid_example :
    (view : QuoteView) × (quote_state_to_view "q-1" open_quote ≡ ok view)
    × (view.line_items ≡ map shown_line open_quote.lines)
    × (view.quote_id ≡ "q-1")
    × (view.currency_code ≡ currency_code open_quote)
    × (view.jurisdiction_id ≡ jurisdiction_id open_quote)
    × (add_view_totals (pos 0) view.line_items ≡ view.subtotal_minor)
    × (view.total_minor ≡ view.subtotal_minor +ℤ view.tax_minor)
    × (view.finalized ≡ open_quote.finalized)
view_of_valid_example = view_of_valid "q-1" open_quote open_quote-IsValid
