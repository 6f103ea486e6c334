-- ===== src/Domain/Money/Exact.antt =====
-- The totals of src/domain/model.rs against plain integer arithmetic.
use quote_ledger.Common.{
  ◌≡◌, refl, Bool, ◌&&◌, List, [], ◌∷◌, ok, err, Bool-cases, &&-right, ◌⊎◌, inl, inr, arith, true,
  if◌then◌else◌,
}
use quote_ledger.Common.Int.{ℤ, pos, negsuc, ◌+ℤ◌, ◌*ℤ◌, ◌/ℤ◌, fits_i64, try_i64}
use quote_ledger.Domain.Model.{integer_overflow, LineItemState, QuoteState}
use quote_ledger.Domain.Money.{
  line_total_minor, add_line_totals, subtotal_minor, tax_rate_bps, tax_minor, total_minor,
}

-- The amount of a line, and the sum of the amounts added one by one.
abbrev pub amount : LineItemState → ℤ
amount line = line.quantity *ℤ line.unit_minor

abbrev pub add_amounts : ℤ → List LineItemState → ℤ
add_amounts sum [] = sum
add_amounts sum (line ∷ lines) = add_amounts (sum +ℤ amount line) lines

abbrev pub amounts_fit : List LineItemState → Bool
amounts_fit [] = true
amounts_fit (line ∷ lines) = fits_i64 (amount line) && amounts_fit lines

abbrev pub exact_subtotal : QuoteState → ℤ
exact_subtotal state = add_amounts (pos 0) state.lines

abbrev pub exact_tax : QuoteState → ℤ
exact_tax state = (exact_subtotal state *ℤ tax_rate_bps state) /ℤ 10_000

abbrev pub subtotal_fits : QuoteState → Bool
subtotal_fits state = amounts_fit state.lines && fits_i64 (exact_subtotal state)

add_line_totals_lem :
    (sum : ℤ) (lines : List LineItemState)
    → add_line_totals sum lines
      ≡ (if amounts_fit lines then ok (add_amounts sum lines) else err integer_overflow)
unfolding add_line_totals line_total_minor try_i64
add_line_totals_lem sum [] = refl
add_line_totals_lem sum (line ∷ lines) = elim (Bool-cases (fits_i64 (amount line))) [
  | inl fits ↦ rw fits (add_line_totals_lem (sum +ℤ amount line) lines)
  | inr too_big ↦ rw too_big refl
]

-- The subtotal is the exact sum of quantity times price; it fails exactly when a line's amount or
-- the sum leaves the range of `i64`.
pub subtotal_minor-exact :
    (state : QuoteState)
    → subtotal_minor state
      ≡ (if subtotal_fits state then ok (exact_subtotal state) else err integer_overflow)
unfolding subtotal_minor try_i64
subtotal_minor-exact state =
    rw (add_line_totals_lem (pos 0) state.lines) (elim (Bool-cases (amounts_fit state.lines)) [
      | inl fits ↦ rw fits refl
      | inr too_big ↦ rw too_big refl
    ])

-- The rate is 8% or nothing.
pub tax_rate_bps-cases :
    (state : QuoteState) → (tax_rate_bps state ≡ pos 800) ⊎ (tax_rate_bps state ≡ pos 0)
unfolding tax_rate_bps
tax_rate_bps-cases state = ground arith

eight_percent_fits : (z : ℤ) → fits_i64 z ≡ true → fits_i64 ((z *ℤ pos 800) /ℤ 10_000) ≡ true
eight_percent_fits (pos n) h = ground arith
eight_percent_fits (negsuc n) h = ground arith

zero_percent_fits : (z : ℤ) → fits_i64 ((z *ℤ pos 0) /ℤ 10_000) ≡ true
zero_percent_fits (pos n) = ground arith
zero_percent_fits (negsuc n) = ground arith

-- A tax of at most 8% of an `i64` is an `i64`.
exact_tax_fits :
    (state : QuoteState)
    → fits_i64 (exact_subtotal state) ≡ true
    → fits_i64 (exact_tax state) ≡ true
exact_tax_fits state h = elim (tax_rate_bps-cases state) [
  | inl us ↦ rw us (eight_percent_fits (exact_subtotal state) h)
  | inr other ↦ rw other (zero_percent_fits (exact_subtotal state))
]

-- For every state the tax is the rate's share of the exact subtotal, rounded towards zero; it
-- fails exactly when a line's amount or the subtotal leaves the range of i64, and never by itself.
pub tax_minor-exact :
    (state : QuoteState)
    → tax_minor state ≡ (if subtotal_fits state then ok (exact_tax state) else err integer_overflow)
unfolding tax_minor try_i64
tax_minor-exact state = rw (subtotal_minor-exact state) (elim (Bool-cases (subtotal_fits state)) [
  | inl fits ↦ rw fits (
      rw
        (exact_tax_fits state
          (&&-right (amounts_fit state.lines) (fits_i64 (exact_subtotal state)) fits))
        refl)
  | inr too_big ↦ rw too_big refl
])

-- For every state the total is the exact subtotal with the exact tax; it fails with an integer
-- overflow exactly when a line's amount, the subtotal or the total leaves the range of i64.
pub total_minor-exact :
    (state : QuoteState)
    → let total = exact_subtotal state +ℤ exact_tax state in
      total_minor state
      ≡ (if subtotal_fits state && fits_i64 total then ok total else err integer_overflow)
unfolding total_minor try_i64
total_minor-exact state =
    rw (subtotal_minor-exact state, tax_minor-exact state)
      (elim (Bool-cases (subtotal_fits state)) [
        | inl fits ↦ rw fits refl
        | inr too_big ↦ rw too_big refl
      ])
