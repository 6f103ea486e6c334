-- ===== src/Examples/ProcessRuns.antt =====
-- The configuration and the shutdown of the process at concrete inputs (src/config.rs, src/main.rs).
use quote_ledger.Common.{
  Bool, zero, suc, str_eq, Option, ℕ, ◌+◌, ◌-◌, ◌*◌, ◌≡◌, ◌↔◌, refl, String, true, false, none,
  some, [], ◌∷◌, ok, err,
}
use quote_ledger.Auth.{eq_ignore_ascii_case, required, present, ascii, from_env_var}
use quote_ledger.Startup.{Host, Server, open_and_migrate, start_server, ledger_request, admit}
use quote_ledger.Startup.Guards.{
  IsBuilt, IsGuarded, start_server-IsServable, start_server_authenticates,
}
use quote_ledger.Common.Text.{trim}
use quote_ledger.Config.Env.{
  unicode, Vars, unknown_variable, not_a_number, pos_overflow, keepalive_order, contains, is_scoped,
  var, parse, parse_digits, env_u64, env_usize, env_bool, env_opt_nonzero_u32, env_opt_path,
  check_names, validate_strict_unknown,
}
use quote_ledger.Config.Service.{
  ServiceConfig, from_env_and_args, read_limits, read_concurrency, read_keepalive, read_tls,
}
use quote_ledger.Config.Accepted.{IsServable, from_env_and_args_accepts}
use quote_ledger.Shutdown.{drain, shutdown_signal, tick, complete}

-- Addresses as they are written.
abbrev as_written : String → Option String
as_written v = some v

abbrev strict_vars : Vars
strict_vars =
    (unicode "PATH", unicode "/bin")
    ∷ (unicode "STRICT_CONFIG", unicode " Yes")
    ∷ (unicode "GRPC_RATE_LIMIT_RPS", unicode "500")
    ∷ (unicode "APPEND_MAX_COMMANDS", unicode "+16")
    ∷ []

abbrev accepted : ServiceConfig as_written
accepted = record {
  grpc_listen = "127.0.0.1:50051";
  metrics_listen = "127.0.0.1:9090";
  db_path = "quote_ledger.db";
  reliability = record { append_idle_timeout = 10_000; append_max_commands = 16 };
  grpc_concurrency_limit = 128;
  grpc_keepalive_interval = 30_000;
  grpc_keepalive_timeout = 10_000;
  reflection_enabled = true;
  grpc_tls_cert = none;
  grpc_tls_key = none;
  grpc_rate_limit_rps = some 500;
}

strict_config_accepted : from_env_and_args as_written strict_vars [] ≡ ok accepted
unfolding from_env_and_args read_limits read_concurrency read_keepalive read_tls
    validate_strict_unknown env_bool var eq_ignore_ascii_case trim check_names is_scoped contains
    env_u64 env_usize parse parse_digits env_opt_path env_opt_nonzero_u32
strict_config_accepted = refl

typo_refused :
    validate_strict_unknown ((unicode "GRPC_LISTEN", unicode "x") ∷ strict_vars)
    ≡ err (unknown_variable "GRPC_LISTEN")
unfolding validate_strict_unknown env_bool var eq_ignore_ascii_case trim check_names is_scoped
    contains
typo_refused = refl

keepalive_refused :
    from_env_and_args as_written ((unicode "GRPC_KEEPALIVE_INTERVAL_MS", unicode "10000") ∷ []) []
    ≡ err keepalive_order
unfolding from_env_and_args read_limits read_concurrency read_keepalive read_tls
    validate_strict_unknown env_bool var env_u64 env_usize parse parse_digits
keepalive_refused = refl

too_wide_refused :
    from_env_and_args as_written
      ((unicode "APPEND_IDLE_TIMEOUT_MS", unicode "18446744073709551616") ∷ [])
      []
    ≡ err (not_a_number "APPEND_IDLE_TIMEOUT_MS" pos_overflow)
unfolding from_env_and_args read_limits read_concurrency read_keepalive read_tls
    validate_strict_unknown env_bool var env_u64 parse parse_digits
too_wide_refused = refl

from_env_and_args_accepts_example :
    (from_env_and_args as_written strict_vars [] ≡ ok accepted)
    ↔ IsServable as_written strict_vars [] accepted
from_env_and_args_accepts_example = from_env_and_args_accepts as_written strict_vars [] accepted

-- Two appends that finish in the first two ticks.
abbrev leaving : ℕ → ℕ
leaving i = 2 - i

abbrev every_tick : ℕ → ℕ
every_tick i = 7 + i * tick

leaving_drained : shutdown_signal true leaving every_tick 7 151 ≡ some (some (2, complete))
unfolding shutdown_signal drain
leaving_drained = refl

-- A host on which every call goes well, with a token bucket as a number.
abbrev host : Host String String String ℕ
host = record {
  parse_addr = as_written;
  install_recorder = ok tt;
  bind = λ addr. ok tt;
  open_connection = λ path. ok path;
  execute_batch = λ batch conn. ok conn;
  read = λ path. ok path;
  tls_config = λ cert key. ok cert;
  build_reflection = ok tt;
  direct = λ n. n;
}

abbrev guarded_vars : Vars
guarded_vars =
    (unicode "QUOTE_LEDGER_AUTH_TOKEN", unicode " s3cret ")
    ∷ (unicode "GRPC_TLS_CERT", unicode "cert.pem")
    ∷ (unicode "GRPC_TLS_KEY", unicode "key.pem")
    ∷ (unicode "GRPC_RATE_LIMIT_RPS", unicode "2")
    ∷ []

abbrev guarded : Server String String String ℕ
guarded = record {
  conn = "quote_ledger.db";
  reliability = record { append_idle_timeout = 10_000; append_max_commands = 512 };
  interceptor = record { auth = required "s3cret"; limiter = some 2; rate_limited = 0 };
  concurrency_limit = 128;
  keepalive_interval = 30_000;
  keepalive_timeout = 10_000;
  tls = some "cert.pem";
  reflection = true;
  listen = "127.0.0.1:50051";
}

guarded_started : start_server host guarded_vars [] ≡ ok guarded
unfolding start_server open_and_migrate from_env_and_args read_limits read_concurrency
    read_keepalive read_tls validate_strict_unknown env_bool var env_u64 env_usize parse
    parse_digits env_opt_path env_opt_nonzero_u32 trim from_env_var
guarded_started = refl

start_server-IsServable_example :
    (cfg : ServiceConfig as_written) × IsServable as_written guarded_vars [] cfg
    × IsBuilt host cfg guarded
start_server-IsServable_example =
    start_server-IsServable host guarded_vars [] guarded guarded_started

-- A limiter that has `n` calls left.
abbrev take_one : ℕ → Bool × ℕ
take_one zero = (false, 0)
take_one (suc n) = (true, n)

token_set : var guarded_vars "QUOTE_LEDGER_AUTH_TOKEN" ≡ present " s3cret "
unfolding var
token_set = refl

start_server_authenticates_example :
    IsGuarded host guarded_vars [] guarded guarded_started " s3cret " guarded
      (ledger_request (some (ascii "Bearer guess")))
      (admit str_eq take_one guarded (ledger_request (some (ascii "Bearer guess"))))
start_server_authenticates_example =
    start_server_authenticates host guarded_vars [] guarded guarded_started str_eq take_one
      (λ a b same. refl) " s3cret " (some 2) 0 (ledger_request (some (ascii "Bearer guess")))
      token_set
