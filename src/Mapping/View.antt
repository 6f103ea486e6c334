-- ===== src/Mapping/View.antt =====
-- The view of a quote that subscribers are sent (`quote_state_to_view`).
use quote_ledger.Common.{
  ap, ◌∙◌, ◌≡◌, refl, String, true, &&-left, &&-right, List, [], ◌∷◌, map, ok,
}
use quote_ledger.Common.Int.{ℤ, pos, ◌+ℤ◌, ◌*ℤ◌, fits_i64, try_i64}
use quote_ledger.Domain.Model.{LineItemState, QuoteState, currency_code, jurisdiction_id}
use quote_ledger.Domain.Money.{line_total_minor}
use quote_ledger.Domain.Money.Exact.{amount, add_amounts, amounts_fit, exact_subtotal}
use quote_ledger.Domain.Money.Positive.{priced-subtotal_fits, valid_totals}
use quote_ledger.Domain.Reducer.Invariant.{IsValid}
use quote_ledger.Wire.{LineItemView, QuoteView}
use quote_ledger.Mapping.{line_view, line_views, quote_state_to_view}

abbrev pub add_view_totals : ℤ → List LineItemView → ℤ
add_view_totals sum [] = sum
add_view_totals sum (v ∷ views) = add_view_totals (sum +ℤ v.line_total_minor) views

-- What a subscriber is to see of a line, field by field.
abbrev pub shown_line : LineItemState → LineItemView
shown_line line = record {
  line_id = line.line_id;
  sku = line.sku;
  description = line.description;
  quantity = line.quantity;
  unit_minor = line.unit_minor;
  line_total_minor = line.quantity *ℤ line.unit_minor;
}

abbrev exact_view : LineItemState → LineItemView
exact_view line = line_view line (amount line)

exact_views : (lines : List LineItemState) → map exact_view lines ≡ map shown_line lines
exact_views [] = refl
exact_views (line ∷ lines) = ap (λ views. shown_line line ∷ views) (exact_views lines)

line_views-exact :
    (lines : List LineItemState)
    → amounts_fit lines ≡ true
    → line_views lines ≡ ok (map exact_view lines)
unfolding line_views line_total_minor try_i64
line_views-exact [] h = refl
line_views-exact (line ∷ lines) h =
    rw (&&-left (fits_i64 (amount line)) (amounts_fit lines) h)
      (rw (line_views-exact lines (&&-right (fits_i64 (amount line)) (amounts_fit lines) h)) refl)

add_view_totals-exact :
    (sum : ℤ) (lines : List LineItemState)
    → add_view_totals sum (map exact_view lines) ≡ add_amounts sum lines
add_view_totals-exact sum [] = refl
add_view_totals-exact sum (line ∷ lines) = add_view_totals-exact (sum +ℤ amount line) lines

-- The view with the exact amounts, for a subtotal and a tax.
abbrev exact_quote_view : String → QuoteState → ℤ → ℤ → QuoteView
exact_quote_view q s sub tax = record {
  quote_id = q;
  currency_code = currency_code s;
  jurisdiction_id = jurisdiction_id s;
  finalized = s.finalized;
  subtotal_minor = sub;
  tax_minor = tax;
  total_minor = sub +ℤ tax;
  line_items = map exact_view s.lines;
}

-- A valid quote has a view: its lines are the quote's in order, field by field, each with its
-- quantity times its unit price, the amounts add up to the subtotal, the total is the subtotal
-- with the tax, and the quote's identifier, its codes of currency and jurisdiction and its flag
-- are the quote's.
pub view_of_valid :
    (q : String) (s : QuoteState)
    → IsValid s
    → (view : QuoteView) × (quote_state_to_view q s ≡ ok view)
      × (view.line_items ≡ map shown_line s.lines)
      × (view.quote_id ≡ q)
      × (view.currency_code ≡ currency_code s)
      × (view.jurisdiction_id ≡ jurisdiction_id s)
      × (add_view_totals (pos 0) view.line_items ≡ view.subtotal_minor)
      × (view.total_minor ≡ view.subtotal_minor +ℤ view.tax_minor)
      × (view.finalized ≡ s.finalized)
unfolding quote_state_to_view
view_of_valid q s v =
    let (sub, tax, is_sub, exact, is_tax, _, is_total) = valid_totals s v in
    let fit =
      &&-left (amounts_fit s.lines) (fits_i64 (exact_subtotal s))
        (priced-subtotal_fits s v.priced) in
    (
      exact_quote_view q s (pos sub) (pos tax),
      rw (is_sub, is_tax, is_total, line_views-exact s.lines fit) refl,
      exact_views s.lines,
      refl,
      refl,
      refl,
      add_view_totals-exact (pos 0) s.lines ∙ exact,
      refl,
      refl,
    )
