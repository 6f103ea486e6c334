-- ===== src/Common/Int.antt =====
-- Signed integers over the native numbers, as the program computes with them in `i64` and `i128`:
-- the conversion `i64::try_from`, the product, and the division that rounds towards zero.
use quote_ledger.Common.Tests.{ltb, leb, ◌==◌, if◌then◌else◌}
use quote_ledger.Common.Outcome.{Result, ok, err}
use Prim.Native.Nat.{ℕ, suc, ◌+◌, ◌-◌, ◌*◌, ◌/◌, ◌^◌, ◌≤◌, ◌<◌}
use mathlib.Core.Path.{◌≡◌}
use mathlib.Core.Bool.{Bool}
use native.Mathlib.Omega.{arith}

-- `negsuc n` is -(n + 1).
pub data ℤ : Type 0 where
  pos : ℕ → ℤ
  negsuc : ℕ → ℤ

abbrev pub pos_part : ℤ → ℕ
pos_part (pos n) = n
pos_part (negsuc n) = 0

abbrev pub neg_part : ℤ → ℕ
neg_part (pos n) = 0
neg_part (negsuc n) = suc n

abbrev pub sub_ℕ : ℕ → ℕ → ℤ
sub_ℕ a b = if leb b a then pos (a - b) else negsuc (b - a - 1)

abbrev pub neg : ℕ → ℤ
neg n = if n == 0 then pos 0 else negsuc (n - 1)

infixl 65 ◌+ℤ◌
infixl 70 ◌*ℤ◌ ◌/ℤ◌
infix 50 ◌≤ℤ◌
abbrev pub ◌+ℤ◌ : ℤ → ℤ → ℤ
pos a +ℤ pos b = pos (a + b)
pos a +ℤ negsuc b = sub_ℕ a (suc b)
negsuc a +ℤ pos b = sub_ℕ b (suc a)
negsuc a +ℤ negsuc b = negsuc (suc (a + b))

abbrev pub ◌*ℤ◌ : ℤ → ℤ → ℤ
pos a *ℤ pos b = pos (a * b)
pos a *ℤ negsuc b = neg (a * suc b)
negsuc a *ℤ pos b = neg (suc a * b)
negsuc a *ℤ negsuc b = pos (suc a * suc b)

-- Rust's `/` by a positive number rounds towards zero.
abbrev pub ◌/ℤ◌ : ℤ → ℕ → ℤ
pos a /ℤ d = pos (a / d)
negsuc a /ℤ d = neg (suc a / d)

abbrev pub ◌≤ℤ◌ : ℤ → ℤ → Type 0
a ≤ℤ b = pos_part a + neg_part b ≤ pos_part b + neg_part a

abbrev pub leb_ℤ : ℤ → ℤ → Bool
leb_ℤ a b = leb (pos_part a + neg_part b) (pos_part b + neg_part a)

abbrev pub ltb_ℤ : ℤ → ℤ → Bool
ltb_ℤ a b = ltb (pos_part a + neg_part b) (pos_part b + neg_part a)

-- -2^63 .. 2^63 - 1: a magnitude below 2^63, counted from 0 upwards and from -1 downwards.
abbrev pub i64_limit : ℕ
i64_limit = 2 ^ 63

abbrev pub magnitude : ℤ → ℕ
magnitude (pos n) = n
magnitude (negsuc n) = n

abbrev pub fits_i64 : ℤ → Bool
fits_i64 z = ltb (magnitude z) i64_limit

-- `i64::try_from`, with the error that the caller maps a failure to.
unfoldable pub try_i64 : {E : Type 0} → E → ℤ → Result ℤ E
try_i64 e z = if fits_i64 z then ok z else err e

pub try_i64-ok :
    {E : Type 0} (e : E) {z y : ℤ} → try_i64 e z ≡ ok y → (y ≡ z) × (magnitude z < i64_limit)
unfolding try_i64
try_i64-ok e h = ground arith

pub try_i64_fits : {E : Type 0} (e : E) (z : ℤ) → magnitude z < i64_limit → try_i64 e z ≡ ok z
unfolding try_i64
try_i64_fits e z h = ground arith
