-- ===== src/Startup.antt =====
-- `main` of src/main.rs up to the call that serves: the configuration, the database (src/sqlite.rs), the token, the
-- interceptor and the options of the server, in the source's order. The calls of libraries and of
-- the file system are a parameter.
pub mod Guards
use quote_ledger.Common.{
  is_ok, ℕ, String, Bool, Option, none, some, List, Result, ok, err, ◌>>=◌, ◌>>◌, map_err,
  if◌then◌else◌,
}
use quote_ledger.Auth.{AuthInterceptor, Header, from_env_var}
use quote_ledger.Interceptor.{LedgerGrpcInterceptor, call}
use quote_ledger.Config.Env.{OsText, Vars, var, ConfigError}
use quote_ledger.Config.Service.{ReliabilityLimits, ServiceConfig, from_env_and_args}

-- `Box<dyn Error>`, by what it holds.
pub data StartError : Type 0 where
  invalid_config : ConfigError → StartError
  host_error : String → StartError
  token_error : String → StartError

-- The texts that src/sqlite.rs executes.
pub data Batch : Type 0 where
  initial_migration pragmas : Batch

pub record Host (Addr Conn Identity Limiter : Type 0) : Type 0 where
  pub parse_addr : String → Option Addr
  pub install_recorder : Result (Unit {0}) String
  pub bind : Addr → Result (Unit {0}) String
  pub open_connection : String → Result Conn String
  pub execute_batch : Batch → Conn → Result Conn String
  pub read : String → Result String String
  pub tls_config : (cert key : String) → Result Identity String
  pub build_reflection : Result (Unit {0}) String
  pub direct : ℕ → Limiter

-- What the server is started with: `interceptor` stands before the ledger's service, and `reflection`
-- says whether the reflection service has been added beside it, with no interceptor.
pub record Server (Addr Conn Identity Limiter : Type 0) : Type 0 where
  pub conn : Conn
  pub reliability : ReliabilityLimits
  pub interceptor : LedgerGrpcInterceptor Limiter
  pub concurrency_limit : ℕ
  pub keepalive_interval : ℕ
  pub keepalive_timeout : ℕ
  pub tls : Option Identity
  pub reflection : Bool
  pub listen : Addr

module _ {Addr Conn Identity Limiter : Type 0} (host : Host Addr Conn Identity Limiter) where
  -- `open_and_migrate` of src/sqlite.rs
  unfoldable pub open_and_migrate : String → Result Conn String
  open_and_migrate path = do
    conn ← host.open_connection path
    migrated ← host.execute_batch initial_migration conn
    host.execute_batch pragmas migrated

  -- `LedgerGrpcInterceptor::new`
  abbrev pub new_interceptor : AuthInterceptor → Option ℕ → LedgerGrpcInterceptor Limiter
  new_interceptor auth none = record { auth = auth; limiter = none; rate_limited = 0 }
  new_interceptor auth (some n) = record {
    auth = auth;
    limiter = some (host.direct n);
    rate_limited = 0;
  }

  -- `if let (Some(cert_path), Some(key_path)) = … { … }`
  abbrev pub load_tls : Option String → Option String → Result (Option Identity) String
  load_tls (some cert_path) (some key_path) = do
    cert ← host.read cert_path
    key ← host.read key_path
    identity ← host.tls_config cert key
    ok (some identity)
  load_tls _ _ = ok none

  unfoldable pub start_server :
      Vars → List OsText → Result (Server Addr Conn Identity Limiter) StartError
  start_server vars args = do
    cfg ← map_err invalid_config (from_env_and_args host.parse_addr vars args)
    map_err host_error host.install_recorder
    map_err host_error (host.bind cfg.metrics_listen)
    conn ← map_err host_error (open_and_migrate cfg.db_path)
    auth ← map_err token_error (from_env_var (var vars "QUOTE_LEDGER_AUTH_TOKEN"))
    tls ← map_err host_error (load_tls cfg.grpc_tls_cert cfg.grpc_tls_key)
    map_err host_error (if cfg.reflection_enabled then host.build_reflection else ok tt)
    ok (record {
      conn = conn;
      reliability = cfg.reliability;
      interceptor = new_interceptor auth cfg.grpc_rate_limit_rps;
      concurrency_limit = cfg.grpc_concurrency_limit;
      keepalive_interval = cfg.grpc_keepalive_interval;
      keepalive_timeout = cfg.grpc_keepalive_timeout;
      tls = tls;
      reflection = cfg.reflection_enabled;
      listen = cfg.grpc_listen;
    })

-- A request for one of the services, with its authorization header.
pub data Request : Type 0 where
  ledger_request reflection_request : Option Header → Request

-- Whether the server lets a request through to the service: the ledger's stands behind the
-- interceptor, and the reflection service, where it has been added, does not.
module _ {Addr Conn Identity Limiter : Type 0} (constant_time_eq : String → String → Bool)
    (check : Limiter → Bool × Limiter) where
  abbrev pub admit :
      Server Addr Conn Identity Limiter → Request → Bool × Server Addr Conn Identity Limiter
  admit server (ledger_request header) =
      let (r, ix) = call constant_time_eq check server.interceptor header in
      (is_ok r, record server { interceptor = ix })
  admit server (reflection_request header) = (server.reflection, server)
