-- ===== src/Domain/Money/Width.antt =====
-- The `i128` intermediates of src/domain/model.rs stay inside 128 bits, so that computing them on
-- unbounded integers is what the program does.
use quote_ledger.Common.{
  ℕ, ◌+◌, ◌*◌, ◌^◌, ◌≤◌, ◌<◌, ◌≡◌, List, [], ◌∷◌, ◌++◌, length, length-append, All, ok, >>=-eq-ok,
  arith, suc,
}
use quote_ledger.Common.Int.{ℤ, pos, negsuc, ◌+ℤ◌, ◌*ℤ◌, magnitude, i64_limit, try_i64-ok}
use quote_ledger.Domain.Model.{integer_overflow, LineItemState}
use quote_ledger.Domain.Money.{line_total_minor, add_line_totals}
use quote_ledger.Domain.Money.Exact.{amount}

abbrev pub i128_limit : ℕ
i128_limit = 2 ^ 127

-- The fields of a line are `i64` values.
abbrev pub LineIsI64 : LineItemState → Type 0
LineIsI64 line = (magnitude line.quantity < i64_limit) × (magnitude line.unit_minor < i64_limit)

mul_below : (a b : ℕ) → a ≤ 2 ^ 63 → b ≤ 2 ^ 63 → a * b ≤ 2 ^ 126
mul_below a b h k = grind arith

amount_width :
    (a b : ℤ) → magnitude a < i64_limit → magnitude b < i64_limit → magnitude (a *ℤ b) < i128_limit
amount_width (pos a) (pos b) h k = omega (arith, mul_below a b (omega arith) (omega arith))
amount_width (pos a) (negsuc b) h k =
    ground (arith, mul_below a (suc b) (omega arith) (omega arith))
amount_width (negsuc a) (pos b) h k =
    ground (arith, mul_below (suc a) b (omega arith) (omega arith))
amount_width (negsuc a) (negsuc b) h k =
    omega (arith, mul_below (suc a) (suc b) (omega arith) (omega arith))

abbrev abs : ℤ → ℕ
abs (pos n) = n
abs (negsuc n) = suc n

abs-add : (a b : ℤ) → abs (a +ℤ b) ≤ abs a + abs b
abs-add (pos a) (pos b) = omega arith
abs-add (pos a) (negsuc b) = ground arith
abs-add (negsuc a) (pos b) = ground arith
abs-add (negsuc a) (negsuc b) = omega arith

line_total_width : (line : LineItemState) {t : ℤ} → line_total_minor line ≡ ok t → abs t ≤ i64_limit
unfolding line_total_minor
line_total_width line {t} h =
    ground (arith, (try_i64-ok integer_overflow h).0, (try_i64-ok integer_overflow h).1)

add_line_totals_width :
    (sum : ℤ) (lines : List LineItemState) {r : ℤ}
    → add_line_totals sum lines ≡ ok r
    → abs r ≤ abs sum + length lines * i64_limit
unfolding add_line_totals
add_line_totals_width sum [] h = ground arith
add_line_totals_width sum (line ∷ lines) h =
    let (t, is_total, rest) = >>=-eq-ok _ (line_total_minor line) h in
    omega (
      arith,
      line_total_width line is_total,
      abs-add sum t,
      add_line_totals_width (sum +ℤ t) lines rest,
    )

All-amounts_width :
    (lines : List LineItemState)
    → All LineIsI64 lines
    → All (λ line. magnitude (amount line) < i128_limit) lines
All-amounts_width [] h = tt
All-amounts_width (line ∷ lines) h =
    (amount_width line.quantity line.unit_minor h.0.0 h.0.1, All-amounts_width lines h.1)

-- With i64 fields and fewer than 2^63 lines, every product of quantity and price and every value
-- that the running sum of the subtotal takes, after any number of lines, is an i128.
pub money_fits_i128 :
    (added left : List LineItemState) {sum : ℤ}
    → All LineIsI64 (added ++ left)
    → length (added ++ left) < i64_limit
    → add_line_totals (pos 0) added ≡ ok sum
    → All (λ line. magnitude (amount line) < i128_limit) (added ++ left)
      × (magnitude sum < i128_limit)
money_fits_i128 added left {sum} fields short h = (
  All-amounts_width (added ++ left) fields,
  running_sum sum (add_line_totals_width (pos 0) added h)
      (omega (arith, length-append {0} added left)),
)
  where
    running_sum :
        (z : ℤ)
        → abs z ≤ 0 + length added * i64_limit
        → length added < i64_limit
        → magnitude z < i128_limit
    running_sum (pos n) bound few = omega arith
    running_sum (negsuc n) bound few = omega arith
