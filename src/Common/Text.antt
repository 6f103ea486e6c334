-- ===== src/Common/Text.antt =====
-- The methods of Rust's `str` that the program calls, over native texts.
use Prim.Native.Char.{code}
use Prim.Native.String.{String, [], ◌∷◌}
use Prim.Native.Nat.{ℕ, ◌+◌}
use native.Mathlib.Omega.{arith}
use mathlib.Core.Path.{◌≡◌, refl}
use mathlib.Core.Bool.{Bool, true, false, not, ◌&&◌, ◌||◌}
use mathlib.Core.Logic.{inl, inr}
use text.Mathlib.Text.{◌==◌ as str_eq}
use text.Mathlib.TextEquality.{eq_iff}
use quote_ledger.Common.Tests.{&&-right, Bool-cases, ltb, leb, ◌==◌, if◌then◌else◌}

abbrev pub is_empty : String → Bool
is_empty [] = true
is_empty (c ∷ s) = false

-- `char::is_whitespace`, the Unicode property White_Space.
abbrev pub is_whitespace : ℕ → Bool
is_whitespace c =
    (leb 0x9 c && leb c 0xd)
    || c == 0x20
    || c == 0x85
    || c == 0xa0
    || c == 0x1680
    || (leb 0x2000 c && leb c 0x200a)
    || c == 0x2028
    || c == 0x2029
    || c == 0x202f
    || c == 0x205f
    || c == 0x3000

pub trim_start : String → String
trim_start [] = []
trim_start (c ∷ s) = let rest = trim_start s in if is_whitespace (code c) then rest else c ∷ s

-- What is dropped at the end is the longest suffix of whitespace.
pub trim_end : String → String
trim_end [] = []
trim_end (c ∷ s) =
    let rest = trim_end s in if is_empty rest && is_whitespace (code c) then [] else c ∷ rest

unfoldable pub trim : String → String
unfolding trim_start trim_end
trim s = trim_end (trim_start s)

-- `str::len`: the bytes of the UTF-8 encoding.
abbrev pub utf8_width : ℕ → ℕ
utf8_width c = if ltb c 0x80 then 1 else if ltb c 0x800 then 2 else if ltb c 0x1_0000 then 3 else 4

unfoldable pub len : String → ℕ
len [] = 0
len (c ∷ s) = utf8_width (code c) + len s

trim_example : trim "  a b " ≡ "a b"
unfolding trim
trim_example = refl

trim_blank : trim "  " ≡ ""
unfolding trim
trim_blank = refl

unfoldable pub has_no_whitespace : String → Bool
has_no_whitespace [] = true
has_no_whitespace (c ∷ s) = not (is_whitespace (code c)) && has_no_whitespace s

trim_end_same : (s : String) → has_no_whitespace s ≡ true → trim_end s ≡ s
unfolding trim_end has_no_whitespace
trim_end_same [] h = refl
trim_end_same (c ∷ s) h =
    rw (trim_end_same s (&&-right (not (is_whitespace (code c))) (has_no_whitespace s) h))
      (elim (Bool-cases (is_whitespace (code c))) [
        | inl white ↦ absurd (ground (arith, white, h))
        | inr black ↦ rw black (ground arith)
      ])

trim_start_same : (s : String) → has_no_whitespace s ≡ true → trim_start s ≡ s
unfolding trim_start has_no_whitespace
trim_start_same [] h = refl
trim_start_same (c ∷ s) h = elim (Bool-cases (is_whitespace (code c))) [
  | inl white ↦ absurd (ground (arith, white, h))
  | inr black ↦ rw black refl
]

-- A text without whitespace is its own trimmed text.
pub trim_same : (s : String) → has_no_whitespace s ≡ true → trim s ≡ s
unfolding trim
trim_same s h = rw (trim_start_same s h) (trim_end_same s h)

pub String-discrete : Discrete String
String-discrete a b = elim (Bool-cases (str_eq a b)) [
  | inl same ↦ yes ((eq_iff a b).0 same)
  | inr other ↦ no (λ e. cc (other, (eq_iff a b).1 e))
]
