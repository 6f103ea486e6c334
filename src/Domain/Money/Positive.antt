-- ===== src/Domain/Money/Positive.antt =====
-- The totals of a valid quote: no amount is negative and the tax is a rounded-down percentage.
use quote_ledger.Common.{
  ap₂, ◌∙◌, ap, ◌⊎◌, ℕ, ◌+◌, ◌*◌, ◌/◌, ◌≡◌, refl, Bool, true, ◌&&◌, &&-left, List, [], ◌∷◌, All,
  Result, ok, err, is_ok, arith, inl, inr, if◌then◌else◌,
}
use quote_ledger.Common.Int.{ℤ, pos, negsuc, ◌+ℤ◌, ◌*ℤ◌, ◌/ℤ◌, ◌≤ℤ◌, fits_i64, pos_part}
use quote_ledger.Domain.Model.{LineItemState, QuoteState}
use quote_ledger.Domain.Money.{subtotal_minor, tax_rate_bps, tax_minor, total_minor}
use quote_ledger.Domain.Money.Exact.{
  amount, add_amounts, exact_subtotal, exact_tax, subtotal_fits, subtotal_minor-exact,
  tax_minor-exact, total_minor-exact, tax_rate_bps-cases,
}
use quote_ledger.Domain.Reducer.Accepted.{LineIsValid}
use quote_ledger.Domain.Reducer.Invariant.{IsValid}

amount_nonneg : (line : LineItemState) → LineIsValid line → pos 0 ≤ℤ amount line
amount_nonneg line v = ground arith

add_amounts_nonneg :
    (sum : ℤ) (lines : List LineItemState)
    → pos 0 ≤ℤ sum
    → All LineIsValid lines
    → pos 0 ≤ℤ add_amounts sum lines
add_amounts_nonneg sum [] h v = h
add_amounts_nonneg sum (line ∷ lines) h v =
    add_amounts_nonneg (sum +ℤ amount line) lines (ground (arith, amount_nonneg line v.0)) v.1

of_nonneg : (z : ℤ) → pos 0 ≤ℤ z → (n : ℕ) × (z ≡ pos n)
of_nonneg (pos n) h = (n, refl)
of_nonneg (negsuc n) h = absurd (omega arith)

module _ {A E : Type 0} (test : Bool) (a : A) (e : E) {r : Result A E}
    (returned : r ≡ (if test then ok a else err e)) (fine : is_ok r ≡ true) where
  ok_if : r ≡ ok a
  ok_if = ground arith

  test_if : test ≡ true
  test_if = ground arith

-- A quote that has a total has a subtotal in range.
pub priced-subtotal_fits : (s : QuoteState) → is_ok (total_minor s) ≡ true → subtotal_fits s ≡ true
priced-subtotal_fits s priced =
    &&-left (subtotal_fits s) _ (test_if _ _ _ (total_minor-exact s) priced)

priced_total :
    (s : QuoteState)
    → is_ok (total_minor s) ≡ true
    → total_minor s ≡ ok (exact_subtotal s +ℤ exact_tax s)
priced_total s priced =
    ok_if (subtotal_fits s && fits_i64 (exact_subtotal s +ℤ exact_tax s)) _ _ (total_minor-exact s)
      priced

percentage :
    (n : ℕ) (rate : ℤ)
    → (rate ≡ pos 800) ⊎ (rate ≡ pos 0)
    → (pos n *ℤ rate) /ℤ 10_000 ≡ pos (n * pos_part rate / 10_000)
percentage n rate (inl e) = rw e refl
percentage n rate (inr e) = rw e refl

-- A valid quote has its three totals: the subtotal is the exact sum of quantity times price and is
-- not negative, the tax is the rate's share of it rounded down, and the total is the sum of both.
pub valid_totals :
    (s : QuoteState)
    → IsValid s
    → (sub tax : ℕ) × (subtotal_minor s ≡ ok (pos sub))
      × (exact_subtotal s ≡ pos sub)
      × (tax_minor s ≡ ok (pos tax))
      × (tax ≡ sub * pos_part (tax_rate_bps s) / 10_000)
      × (total_minor s ≡ ok (pos (sub + tax)))
valid_totals s v =
    let (n, e) =
      of_nonneg (exact_subtotal s) (add_amounts_nonneg (pos 0) s.lines (omega arith) v.lines) in
    let fits = priced-subtotal_fits s v.priced in
    let share =
      ap (λ z. (z *ℤ tax_rate_bps s) /ℤ 10_000) e
      ∙ percentage n (tax_rate_bps s) (tax_rate_bps-cases s) in
    (
      n,
      n * pos_part (tax_rate_bps s) / 10_000,
      rw (subtotal_minor-exact s) (rw fits (ap ok e)),
      e,
      rw (tax_minor-exact s) (rw fits (ap ok share)),
      refl,
      priced_total s v.priced ∙ ap ok (ap₂ ◌+ℤ◌ e share),
    )
