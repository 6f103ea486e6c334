-- ===== src/Auth.antt =====
-- src/auth.rs: the bearer token, from the environment and in a request. What the libraries do is
-- taken as it comes: the environment's answer, the header of a request as tonic reads it, and the
-- comparison of the crate constant_time_eq, a parameter.
pub mod Bearer
use Prim.Native.Char.{Char, code}
use Prim.Native.String.{[] as empty, ◌∷◌ as ◌∷ₛ◌}
use quote_ledger.Common.{
  ℕ, ◌+◌, ◌≡◌, String, Bool, true, false, not, ◌&&◌, ◌||◌, leb, ◌==◌, Option, none, some, Result,
  ok, err, ◌>>=◌, ◌>>◌, ok_or, refuse_if, if◌then◌else◌,
}
use quote_ledger.Common.Text.{is_empty, trim, len}
use quote_ledger.Wire.{Status, Code, Message}
use quote_ledger.Mapping.{status}

pub record AuthInterceptor : Type 0 where
  pub expected_token : Option String

-- `std::env::var`
pub data EnvVar : Type 0 where
  present : String → EnvVar
  not_present not_unicode : EnvVar

-- The error is the text that follows the variable's name.
unfoldable pub from_env_var : EnvVar → Result AuthInterceptor String
from_env_var (present token) =
    if is_empty (trim token)
    then err "must not be empty when set"
    else ok (record { expected_token = some (trim token) })
from_env_var not_present = ok (record { expected_token = none })
from_env_var not_unicode = err "must be valid UTF-8"

abbrev pub required : String → AuthInterceptor
required token = record { expected_token = some token }

-- `request.metadata().get("authorization")`, and its `to_str()`.
pub data Header : Type 0 where
  ascii : String → Header
  not_ascii : Header

abbrev unauthenticated : String → Status
unauthenticated text = status Code.unauthenticated (Message.text text)

abbrev pub to_str : Header → Result String Status
to_str (ascii raw) = ok raw
to_str not_ascii = err (unauthenticated "authorization metadata is not valid ASCII")

-- `raw.split_once(' ')`
abbrev pub cons_first : Char → Option (String × String) → Option (String × String)
cons_first c none = none
cons_first c (some (scheme, token)) = some (c ∷ₛ scheme, token)

unfoldable pub split_once_space : String → Option (String × String)
split_once_space empty = none
split_once_space (c ∷ₛ raw) =
    let rest = split_once_space raw in if code c == 0x20 then some ("", raw) else cons_first c rest

-- `scheme.eq_ignore_ascii_case("bearer")`
abbrev pub to_ascii_lowercase : ℕ → ℕ
to_ascii_lowercase c = if leb b'A' c && leb c b'Z' then c + 32 else c

unfoldable pub eq_ignore_ascii_case : String → String → Bool
eq_ignore_ascii_case empty empty = true
eq_ignore_ascii_case (c ∷ₛ s) (d ∷ₛ t) =
    to_ascii_lowercase (code c) == to_ascii_lowercase (code d) && eq_ignore_ascii_case s t
eq_ignore_ascii_case _ _ = false

module _ (constant_time_eq : String → String → Bool) where
  unfoldable pub check_token : String → String × String → Result (Unit {0}) Status
  check_token expected (scheme, token) = do
    refuse_if (not (eq_ignore_ascii_case scheme "bearer"))
        (unauthenticated "authorization scheme must be Bearer")
    refuse_if (not (len expected == len token) || not (constant_time_eq expected token))
        (unauthenticated "invalid bearer token")
    ok tt

  -- A request that passes goes on as it came.
  unfoldable pub check_request : AuthInterceptor → Option Header → Result (Unit {0}) Status
  check_request auth header = elim auth.expected_token [
    | none ↦ ok tt
    | some expected ↦ do
      raw_header ← ok_or (unauthenticated "missing authorization metadata") header
      raw ← to_str raw_header
      parts ← ok_or (unauthenticated "invalid authorization metadata format") (split_once_space raw)
      check_token expected parts
  ]

  -- `AuthInterceptor::intercept`, which its `Interceptor::call` calls too.
  abbrev pub intercept : AuthInterceptor → Option Header → Result (Unit {0}) Status
  intercept auth header = check_request auth header
