-- ===== src/Config/Env.antt =====
-- What src/config.rs reads of the process: variables as numbers, switches and paths, and the check for
-- unknown names. The environment is the list that the process was started with; a name or a value
-- may be no UTF-8.
use Prim.Native.Char.{code}
use Prim.Native.String.{[] as empty, ◌∷◌ as ◌∷ₛ◌}
use text.Mathlib.Text.{starts_with}
use quote_ledger.Common.{
  ℕ, ◌+◌, ◌-◌, ◌*◌, ◌^◌, String, Bool, true, false, not, ◌&&◌, ◌||◌, ltb, leb, ◌==◌, Option, none,
  some, List, [], ◌∷◌, Result, ok, err, ◌>>=◌, ◌>>◌, map_err, refuse_if, str_eq, if◌then◌else◌,
}
use quote_ledger.Common.Text.{is_empty, trim}
use quote_ledger.Auth.{EnvVar, present, not_present, not_unicode, eq_ignore_ascii_case}

-- `OsString`
pub data OsText : Type 0 where
  unicode : String → OsText
  bytes : OsText

abbrev pub Vars : Type 0
Vars = List (OsText × OsText)

-- `std::env::var`
abbrev pub os_value : OsText → EnvVar
os_value (unicode v) = present v
os_value bytes = not_unicode

unfoldable pub var : Vars → String → EnvVar
var [] name = not_present
var ((unicode k, v) ∷ vars) name = if str_eq k name then os_value v else var vars name
var ((bytes, v) ∷ vars) name = var vars name

-- `std::num::IntErrorKind`
pub data IntError : Type 0 where
  empty_text invalid_digit pos_overflow : IntError

-- The errors by what their texts say; `not_bool` holds the trimmed value, which the text shows in
-- lower case. `panics` is the panic of `std::env::vars` and `std::env::args` at a text that is no
-- UTF-8.
pub data ConfigError : Type 0 where
  not_a_number : String → IntError → ConfigError
  invalid_integer : String → IntError → ConfigError
  not_utf8 empty_value below_one : String → ConfigError
  not_bool : String → String → ConfigError
  unknown_variable : String → ConfigError
  bad_address : String → ConfigError
  idle_timeout_range keepalive_order tls_half : ConfigError
  panics : ConfigError

-- `str::parse` for an unsigned type of the values below `limit`.
unfoldable pub parse_digits : ℕ → ℕ → String → Result ℕ IntError
parse_digits limit n empty = ok n
parse_digits limit n (c ∷ₛ s) =
    if leb b'0' (code c) && leb (code c) b'9'
    then (let next = n * 10 + (code c - b'0') in
        if ltb next limit then parse_digits limit next s else err pos_overflow)
    else err invalid_digit

unfoldable pub parse : ℕ → String → Result ℕ IntError
parse limit empty = err empty_text
parse limit (c ∷ₛ s) =
    if code c == b'+'
    then (if is_empty s then err invalid_digit else parse_digits limit 0 s)
    else parse_digits limit 0 (c ∷ₛ s)

-- A `usize` has 64 bits.
abbrev pub u64_limit : ℕ
u64_limit = 2 ^ 64

abbrev pub u32_limit : ℕ
u32_limit = 2 ^ 32

abbrev pub read_u64 : String → ℕ → EnvVar → Result ℕ ConfigError
read_u64 name default (present v) = map_err (not_a_number name) (parse u64_limit v)
read_u64 name default not_present = ok default
read_u64 name default not_unicode = err (not_utf8 name)

-- `match v.trim().to_ascii_lowercase().as_str() { … }`
abbrev pub bool_of : String → String → Result Bool ConfigError
bool_of name t =
    if eq_ignore_ascii_case t "1"
      || eq_ignore_ascii_case t "true"
      || eq_ignore_ascii_case t "yes"
      || eq_ignore_ascii_case t "on"
    then ok true
    else (if eq_ignore_ascii_case t "0"
          || eq_ignore_ascii_case t "false"
          || eq_ignore_ascii_case t "no"
          || eq_ignore_ascii_case t "off"
        then ok false
        else err (not_bool name t))

abbrev pub read_bool : String → Bool → EnvVar → Result Bool ConfigError
read_bool name default (present v) = bool_of name (trim v)
read_bool name default not_present = ok default
read_bool name default not_unicode = err (not_utf8 name)

abbrev pub read_opt_nonzero_u32 : String → EnvVar → Result (Option ℕ) ConfigError
read_opt_nonzero_u32 name (present v) = do
  refuse_if (is_empty (trim v)) (empty_value name)
  n ← map_err (invalid_integer name) (parse u32_limit (trim v))
  refuse_if (n == 0) (below_one name)
  ok (some n)
read_opt_nonzero_u32 name not_present = ok none
read_opt_nonzero_u32 name not_unicode = err (not_utf8 name)

abbrev pub read_opt_path : String → EnvVar → Result (Option String) ConfigError
read_opt_path name (present v) = do
  refuse_if (is_empty (trim v)) (empty_value name)
  ok (some (trim v))
read_opt_path name not_present = ok none
read_opt_path name not_unicode = err (not_utf8 name)

module _ (vars : Vars) where
  unfoldable pub env_u64 : String → ℕ → Result ℕ ConfigError
  env_u64 name default = read_u64 name default (var vars name)

  unfoldable pub env_usize : String → ℕ → Result ℕ ConfigError
  env_usize name default = read_u64 name default (var vars name)

  unfoldable pub env_bool : String → Bool → Result Bool ConfigError
  env_bool name default = read_bool name default (var vars name)

  unfoldable pub env_opt_nonzero_u32 : String → Result (Option ℕ) ConfigError
  env_opt_nonzero_u32 name = read_opt_nonzero_u32 name (var vars name)

  unfoldable pub env_opt_path : String → Result (Option String) ConfigError
  env_opt_path name = read_opt_path name (var vars name)

abbrev pub known_env_keys : List String
known_env_keys =
    "APPEND_IDLE_TIMEOUT_MS" ∷ "APPEND_MAX_COMMANDS" ∷ "GRPC_CONCURRENCY_LIMIT"
    ∷ "GRPC_KEEPALIVE_INTERVAL_MS" ∷ "GRPC_KEEPALIVE_TIMEOUT_MS" ∷ "GRPC_LISTEN_ADDR"
    ∷ "GRPC_RATE_LIMIT_RPS" ∷ "GRPC_TLS_CERT" ∷ "GRPC_TLS_KEY" ∷ "METRICS_ADDR"
    ∷ "QUOTE_LEDGER_AUTH_TOKEN" ∷ "QUOTE_LEDGER_DB" ∷ "QUOTE_LEDGER_REFLECTION" ∷ "STRICT_CONFIG"
    ∷ []

unfoldable pub contains : List String → String → Bool
contains [] k = false
contains (key ∷ keys) k = str_eq key k || contains keys k

unfoldable pub is_scoped : String → Bool
is_scoped k = starts_with k "QUOTE_LEDGER_" || starts_with k "APPEND_" || starts_with k "GRPC_"

-- The loop over `std::env::vars()`, which takes one variable after the other.
unfoldable pub check_names : Vars → Result (Unit {0}) ConfigError
check_names [] = ok tt
check_names ((unicode k, unicode v) ∷ vars) =
    let rest = check_names vars in
    if not (is_scoped k)
    then rest
    else (if contains known_env_keys k then rest else err (unknown_variable k))
check_names ((unicode k, bytes) ∷ vars) = err panics
check_names ((bytes, v) ∷ vars) = err panics

unfoldable pub validate_strict_unknown : Vars → Result (Unit {0}) ConfigError
validate_strict_unknown vars = do
  strict ← env_bool vars "STRICT_CONFIG" false
  if strict then check_names vars else ok tt
