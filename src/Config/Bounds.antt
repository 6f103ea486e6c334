-- ===== src/Config/Bounds.antt =====
-- What the values that src/config.rs reads are bounded by.
use Prim.Native.Char.{code}
use Prim.Native.String.{[] as empty, ◌∷◌ as ◌∷ₛ◌}
use quote_ledger.Common.{
  Ensures, Ensures-at, Ensures-bind, Ensures-refuse_if, Ensures-map_err, ℕ, ◌+◌, ◌-◌, ◌*◌, ◌<◌, ◌≤◌,
  String, ◌&&◌, ltb, leb, ◌==◌, Option, none, some, map_err, inl, inr, Bool-cases, arith,
}
use quote_ledger.Common.Text.{is_empty, trim}
use quote_ledger.Auth.{EnvVar, present, not_present, not_unicode}
use quote_ledger.Config.Env.{
  parse_digits, parse, u64_limit, u32_limit, read_u64, read_opt_nonzero_u32, invalid_integer,
  below_one, empty_value,
}

parse_digits-Ensures :
    (limit n : ℕ) (s : String) → n < limit → Ensures (λ m. m < limit) (parse_digits limit n s)
unfolding parse_digits
parse_digits-Ensures limit n empty below = below
parse_digits-Ensures limit n (c ∷ₛ s) below =
    elim (Bool-cases (leb b'0' (code c) && leb (code c) b'9')) [
      | inl digit ↦ rw digit (elim (Bool-cases (ltb (n * 10 + (code c - b'0')) limit)) [
        | inl fits ↦
            rw fits (parse_digits-Ensures limit (n * 10 + (code c - b'0')) s (ground arith))
        | inr over ↦ rw over tt
      ])
      | inr other ↦ rw other tt
    ]

parse-Ensures : (limit : ℕ) (s : String) → 0 < limit → Ensures (λ m. m < limit) (parse limit s)
unfolding parse
parse-Ensures limit empty some_value = tt
parse-Ensures limit (c ∷ₛ s) some_value = elim (Bool-cases (code c == b'+')) [
  | inl plus ↦ elim (Bool-cases (is_empty s)) [
    | inl alone ↦ rw plus (rw alone tt)
    | inr digits ↦ rw plus (rw digits (parse_digits-Ensures limit 0 s some_value))
  ]
  | inr first ↦ rw first (parse_digits-Ensures limit 0 (c ∷ₛ s) some_value)
]

pub read_u64-Ensures :
    (name : String) (default : ℕ) (v : EnvVar)
    → default < u64_limit
    → Ensures (λ n. n < u64_limit) (read_u64 name default v)
read_u64-Ensures name default (present v) small =
    Ensures-map_err (λ n. n < u64_limit) _ (parse u64_limit v)
      (parse-Ensures u64_limit v (omega arith))
read_u64-Ensures name default not_present small = small
read_u64-Ensures name default not_unicode small = tt

-- At least one, and within 32 bits.
abbrev pub IsRate : Option ℕ → Type 0
IsRate none = Unit
IsRate (some n) = (1 ≤ n) × (n < u32_limit)

pub read-IsRate : (name : String) (v : EnvVar) → Ensures IsRate (read_opt_nonzero_u32 name v)
read-IsRate name (present v) =
    Ensures-refuse_if IsRate (is_empty (trim v)) (empty_value name) _ (λ filled.
      Ensures-bind IsRate (map_err (invalid_integer name) (parse u32_limit (trim v))) _ (λ n parsed.
        Ensures-refuse_if IsRate (n == 0) (below_one name) _ (λ positive. (
          ground arith,
          Ensures-at (λ m. m < u32_limit) _
              (Ensures-map_err (λ m. m < u32_limit) (invalid_integer name) _
                (parse-Ensures u32_limit (trim v) (omega arith)))
              parsed,
        ))))
read-IsRate name not_present = tt
read-IsRate name not_unicode = tt

-- Both or none.
abbrev pub IsPair : Option String → Option String → Type 0
IsPair none none = Unit
IsPair (some cert) (some key) = Unit
IsPair _ _ = ⊥
