-- ===== src/Domain/Money.antt =====
-- The money computations of src/domain/model.rs. The `i128` intermediates are unbounded integers here;
-- Money/Width.antt shows that they stay inside 128 bits.
pub mod Exact
pub mod Positive
pub mod Width
use text.Mathlib.Text.{starts_with}
use quote_ledger.Common.{◌||◌, List, [], ◌∷◌, Result, ok, ◌>>=◌, str_eq, if◌then◌else◌}
use quote_ledger.Common.Int.{ℤ, pos, ◌+ℤ◌, ◌*ℤ◌, ◌/ℤ◌, try_i64}
use quote_ledger.Domain.Model.{
  DomainError, integer_overflow, LineItemState, QuoteState, jurisdiction_id,
}

unfoldable pub line_total_minor : LineItemState → Result ℤ DomainError
line_total_minor line = let p = line.quantity *ℤ line.unit_minor in try_i64 integer_overflow p

-- The loop of `subtotal_minor`.
unfoldable pub add_line_totals : ℤ → List LineItemState → Result ℤ DomainError
add_line_totals sum [] = ok sum
add_line_totals sum (line ∷ lines) = do
  total ← line_total_minor line
  add_line_totals (sum +ℤ total) lines

unfoldable pub subtotal_minor : QuoteState → Result ℤ DomainError
subtotal_minor state = do sum ← add_line_totals (pos 0) state.lines; try_i64 integer_overflow sum

unfoldable pub tax_rate_bps : QuoteState → ℤ
tax_rate_bps state =
    let jur = jurisdiction_id state in
    if str_eq jur "US" || starts_with jur "US-" then pos 800 else pos 0

unfoldable pub tax_minor : QuoteState → Result ℤ DomainError
tax_minor state = do
  sub ← subtotal_minor state
  try_i64 integer_overflow ((sub *ℤ tax_rate_bps state) /ℤ 10_000)

unfoldable pub total_minor : QuoteState → Result ℤ DomainError
total_minor state = do
  sub ← subtotal_minor state
  tax ← tax_minor state
  try_i64 integer_overflow (sub +ℤ tax)
