-- ===== src/Config/Service.antt =====
-- `ServiceConfig::from_env_and_args` of src/config.rs. The parser of socket addresses is a parameter.
use quote_ledger.Common.{
  ℕ, String, Bool, true, not, ◌&&◌, ltb, leb, Option, none, some, List, [], ◌∷◌, Result, ok, err,
  ◌>>=◌, ◌>>◌, ok_or, refuse_if,
}
use quote_ledger.Auth.{EnvVar, present, not_present, not_unicode}
use quote_ledger.Config.Env.{
  OsText, unicode, bytes, Vars, var, ConfigError, not_utf8, below_one, bad_address,
  idle_timeout_range, keepalive_order, tls_half, panics, env_u64, env_usize, env_bool,
  env_opt_nonzero_u32, env_opt_path, validate_strict_unknown,
}

-- Durations in milliseconds.
pub record ReliabilityLimits : Type 0 where
  pub append_idle_timeout : ℕ
  pub append_max_commands : ℕ

-- The first argument, `std::env::args().nth(1)`.
abbrev pub first_argument : List OsText → Result (Option String) ConfigError
first_argument [] = ok none
first_argument (bytes ∷ args) = err panics
first_argument (unicode program ∷ []) = ok none
first_argument (unicode program ∷ bytes ∷ args) = err panics
first_argument (unicode program ∷ unicode listen ∷ args) = ok (some listen)

abbrev pub unwrap_or : String → Option String → String
unwrap_or default none = default
unwrap_or default (some v) = v

-- `std::env::var(name).unwrap_or_else(|_| default)`
abbrev pub var_or : String → EnvVar → String
var_or default (present v) = v
var_or default not_present = default
var_or default not_unicode = default

abbrev pub tls_pair :
    Option String → Option String → Result (Option String × Option String) ConfigError
tls_pair (some c) (some k) = ok (some c, some k)
tls_pair none none = ok (none, none)
tls_pair _ _ = err tls_half

module _ (vars : Vars) where
  -- The limits of `append_commands`.
  unfoldable pub read_limits : Result ReliabilityLimits ConfigError
  read_limits = do
    append_idle_timeout_ms ← env_u64 vars "APPEND_IDLE_TIMEOUT_MS" 10_000
    append_max_commands ← env_usize vars "APPEND_MAX_COMMANDS" 512
    refuse_if (ltb append_max_commands 1) (below_one "APPEND_MAX_COMMANDS")
    refuse_if (not (leb 1 append_idle_timeout_ms && leb append_idle_timeout_ms 3_600_000))
        idle_timeout_range
    ok (record {
      append_idle_timeout = append_idle_timeout_ms;
      append_max_commands = append_max_commands;
    })

  unfoldable pub read_concurrency : Result ℕ ConfigError
  read_concurrency = do
    grpc_concurrency_limit ← env_usize vars "GRPC_CONCURRENCY_LIMIT" 128
    refuse_if (ltb grpc_concurrency_limit 1) (below_one "GRPC_CONCURRENCY_LIMIT")
    ok grpc_concurrency_limit

  -- The interval and the timeout.
  unfoldable pub read_keepalive : Result (ℕ × ℕ) ConfigError
  read_keepalive = do
    grpc_keepalive_interval_ms ← env_u64 vars "GRPC_KEEPALIVE_INTERVAL_MS" 30_000
    grpc_keepalive_timeout_ms ← env_u64 vars "GRPC_KEEPALIVE_TIMEOUT_MS" 10_000
    refuse_if (ltb grpc_keepalive_interval_ms 1) (below_one "GRPC_KEEPALIVE_INTERVAL_MS")
    refuse_if (ltb grpc_keepalive_timeout_ms 1) (below_one "GRPC_KEEPALIVE_TIMEOUT_MS")
    refuse_if (leb grpc_keepalive_interval_ms grpc_keepalive_timeout_ms) keepalive_order
    ok (grpc_keepalive_interval_ms, grpc_keepalive_timeout_ms)

  unfoldable pub read_tls : Result (Option String × Option String) ConfigError
  read_tls = do
    cert ← env_opt_path vars "GRPC_TLS_CERT"
    key ← env_opt_path vars "GRPC_TLS_KEY"
    tls_pair cert key

module _ {Addr : Type 0} (parse_addr : String → Option Addr) where
  pub record ServiceConfig : Type 0 where
    pub grpc_listen : Addr
    pub metrics_listen : Addr
    pub db_path : String
    pub reliability : ReliabilityLimits
    pub grpc_concurrency_limit : ℕ
    pub grpc_keepalive_interval : ℕ
    pub grpc_keepalive_timeout : ℕ
    pub reflection_enabled : Bool
    pub grpc_tls_cert : Option String
    pub grpc_tls_key : Option String
    pub grpc_rate_limit_rps : Option ℕ

  abbrev pub listen_addr : List OsText → EnvVar → Result Addr ConfigError
  listen_addr args (present v) = ok_or (bad_address "GRPC_LISTEN_ADDR") (parse_addr v)
  listen_addr args not_present = do
    argument ← first_argument args
    ok_or (bad_address "grpc listen address (argv[1] or default)")
        (parse_addr (unwrap_or "127.0.0.1:50051" argument))
  listen_addr args not_unicode = err (not_utf8 "GRPC_LISTEN_ADDR")

  unfoldable pub from_env_and_args : Vars → List OsText → Result ServiceConfig ConfigError
  from_env_and_args vars args = do
    validate_strict_unknown vars
    grpc_listen ← listen_addr args (var vars "GRPC_LISTEN_ADDR")
    metrics_listen ←
        ok_or (bad_address "METRICS_ADDR")
          (parse_addr (var_or "127.0.0.1:9090" (var vars "METRICS_ADDR")))
    reliability ← read_limits vars
    grpc_concurrency_limit ← read_concurrency vars
    keepalive ← read_keepalive vars
    reflection_enabled ← env_bool vars "QUOTE_LEDGER_REFLECTION" true
    tls ← read_tls vars
    grpc_rate_limit_rps ← env_opt_nonzero_u32 vars "GRPC_RATE_LIMIT_RPS"
    ok (record {
      grpc_listen = grpc_listen;
      metrics_listen = metrics_listen;
      db_path = var_or "quote_ledger.db" (var vars "QUOTE_LEDGER_DB");
      reliability = reliability;
      grpc_concurrency_limit = grpc_concurrency_limit;
      grpc_keepalive_interval = keepalive.0;
      grpc_keepalive_timeout = keepalive.1;
      reflection_enabled = reflection_enabled;
      grpc_tls_cert = tls.0;
      grpc_tls_key = tls.1;
      grpc_rate_limit_rps = grpc_rate_limit_rps;
    })
