-- ===== src/Startup/Guards.antt =====
-- What a server that `main` of src/main.rs starts is guarded by.
use quote_ledger.Common.{
  err, subst, Result, arith, ℕ, ◌≡◌, refl, sym, ap, ◌∙◌, ◌⊎◌, inl, inr, String, Bool, true, false,
  Option, none, some, List, ok, is_ok, map_err, map_err-eq-ok, str_eq, Bool-cases, Ensures,
  Ensures-at, Ensures-bind, if◌then◌else◌,
}
use quote_ledger.Common.Text.{is_empty, trim, len}
use quote_ledger.Auth.{
  AuthInterceptor, present, Header, ascii, required, from_env_var, eq_ignore_ascii_case,
}
use quote_ledger.Auth.Bearer.{header_text}
use quote_ledger.Interceptor.{LedgerGrpcInterceptor, call, call_authenticates}
use quote_ledger.Config.Env.{OsText, Vars, var}
use quote_ledger.Config.Service.{ServiceConfig, from_env_and_args}
use quote_ledger.Config.Says.{SaysSwitch}
use quote_ledger.Config.Bounds.{IsPair}
use quote_ledger.Config.Accepted.{IsServable, from_env_and_args_accepts}
use quote_ledger.Startup.{
  Request, ledger_request, reflection_request, admit, initial_migration, pragmas, invalid_config,
  host_error, token_error, Host, Server, open_and_migrate, new_interceptor, load_tls, start_server,
}

module _ {Addr Conn Identity Limiter : Type 0} (host : Host Addr Conn Identity Limiter) where
  -- The calls that give the connection: it is opened, then the migration is executed, and then the
  -- pragmas.
  pub record IsMigrated (path : String) (conn : Conn) : Type 0 where
    pub fresh : Conn
    pub migrated : Conn
    pub opened : host.open_connection path ≡ ok fresh
    pub tables : host.execute_batch initial_migration fresh ≡ ok migrated
    pub options : host.execute_batch pragmas migrated ≡ ok conn

  -- The TLS identity: that of the certificate and the key, or none where neither is configured.
  abbrev pub IsIdentity : Option String → Option String → Option Identity → Type 0
  IsIdentity none none tls = tls ≡ none
  IsIdentity (some cert) (some key) tls =
      (cert_pem : String) × (key_pem : String) × (identity : Identity) × (host.read cert
        ≡ ok cert_pem)
      × (host.read key ≡ ok key_pem)
      × (host.tls_config cert_pem key_pem ≡ ok identity)
      × (tls ≡ some identity)
  IsIdentity _ _ tls = ⊥

  -- A limiter for the configured rate, or none.
  abbrev pub IsLimiter : Option ℕ → Option Limiter → Type 0
  IsLimiter none limiter = limiter ≡ none
  IsLimiter (some n) limiter = limiter ≡ some (host.direct n)

  -- A server with the options of this configuration.
  pub record IsBuilt (cfg : ServiceConfig host.parse_addr)
      (server : Server Addr Conn Identity Limiter) : Type 0 where
    pub metrics : host.bind cfg.metrics_listen ≡ ok tt
    pub database : IsMigrated cfg.db_path server.conn
    pub limits : server.reliability ≡ cfg.reliability
    pub concurrency : server.concurrency_limit ≡ cfg.grpc_concurrency_limit
    pub interval : server.keepalive_interval ≡ cfg.grpc_keepalive_interval
    pub timeout : server.keepalive_timeout ≡ cfg.grpc_keepalive_timeout
    pub reflection : server.reflection ≡ cfg.reflection_enabled
    pub listen : server.listen ≡ cfg.grpc_listen
    pub limiter : IsLimiter cfg.grpc_rate_limit_rps server.interceptor.limiter
    pub tls : IsIdentity cfg.grpc_tls_cert cfg.grpc_tls_key server.tls

  open_and_migrate-Ensures :
      (path : String) → Ensures (IsMigrated path) (open_and_migrate host path)
  unfolding open_and_migrate
  open_and_migrate-Ensures path =
      Ensures-bind (IsMigrated path) (host.open_connection path) _ (λ fresh opened.
        Ensures-bind (IsMigrated path) (host.execute_batch initial_migration fresh) _
          (λ migrated tables. last_step fresh migrated opened tables _ refl))
    where
      last_step :
          (fresh migrated : Conn)
          → host.open_connection path ≡ ok fresh
          → host.execute_batch initial_migration fresh ≡ ok migrated
          → (r : Result Conn String) → host.execute_batch pragmas migrated ≡ r
          → Ensures (IsMigrated path) r
      last_step fresh migrated opened tables (ok conn) options = record {
        fresh = fresh;
        migrated = migrated;
        opened = opened;
        tables = tables;
        options = options;
      }
      last_step fresh migrated opened tables (err e) options = tt

  new_limiter :
      (auth : AuthInterceptor) (rps : Option ℕ)
      → IsLimiter rps (new_interceptor host auth rps).limiter
  new_limiter auth none = refl
  new_limiter auth (some n) = refl

  load_tls-Ensures :
      (cert key : String)
      → Ensures (IsIdentity (some cert) (some key)) (load_tls host (some cert) (some key))
  load_tls-Ensures cert key =
      Ensures-bind (IsIdentity (some cert) (some key)) (host.read cert) _ (λ cert_pem cert_read.
        Ensures-bind (IsIdentity (some cert) (some key)) (host.read key) _ (λ key_pem key_read.
          Ensures-bind (IsIdentity (some cert) (some key)) (host.tls_config cert_pem key_pem)
            (λ identity. ok (some identity))
            (λ identity made. (cert_pem, key_pem, identity, cert_read, key_read, made, refl))))

  tls_loaded :
      (cert key : Option String) {tls : Option Identity}
      → IsPair cert key
      → load_tls host cert key ≡ ok tls
      → IsIdentity cert key tls
  tls_loaded none none pair loaded = cc loaded
  tls_loaded none (some key) pair loaded = absurd pair
  tls_loaded (some cert) none pair loaded = absurd pair
  tls_loaded (some cert) (some key) pair loaded =
      Ensures-at (IsIdentity (some cert) (some key)) _ (load_tls-Ensures cert key) loaded

module _ {Addr Conn Identity Limiter : Type 0} (host : Host Addr Conn Identity Limiter)
    (vars : Vars) (args : List OsText) where
  -- The calls that a server is put together from.
  pub record IsStarted (server : Server Addr Conn Identity Limiter) : Type 0 where
    pub cfg : ServiceConfig host.parse_addr
    pub servable : IsServable host.parse_addr vars args cfg
    pub built : IsBuilt host cfg server
    pub auth : AuthInterceptor
    pub token : from_env_var (var vars "QUOTE_LEDGER_AUTH_TOKEN") ≡ ok auth
    pub interceptor : server.interceptor ≡ new_interceptor host auth cfg.grpc_rate_limit_rps

  start_server-Ensures : Ensures IsStarted (start_server host vars args)
  unfolding start_server
  start_server-Ensures =
      Ensures-bind IsStarted (map_err invalid_config (from_env_and_args host.parse_addr vars args))
        _
        (λ cfg configured.
          Ensures-bind IsStarted (map_err host_error host.install_recorder) _ (λ _ _.
            Ensures-bind IsStarted (map_err host_error (host.bind cfg.metrics_listen)) _ (λ _ bound.
              Ensures-bind IsStarted (map_err host_error (open_and_migrate host cfg.db_path)) _
                (λ conn opened.
                  Ensures-bind IsStarted
                    (map_err token_error (from_env_var (var vars "QUOTE_LEDGER_AUTH_TOKEN"))) _
                    (λ auth token.
                      Ensures-bind IsStarted
                        (map_err host_error (load_tls host cfg.grpc_tls_cert cfg.grpc_tls_key)) _
                        (λ tls identity.
                          Ensures-bind IsStarted
                            (map_err host_error
                              (if cfg.reflection_enabled then host.build_reflection else ok tt))
                            (λ _. ok (record {
                              conn = conn;
                              reliability = cfg.reliability;
                              interceptor = new_interceptor host auth cfg.grpc_rate_limit_rps;
                              concurrency_limit = cfg.grpc_concurrency_limit;
                              keepalive_interval = cfg.grpc_keepalive_interval;
                              keepalive_timeout = cfg.grpc_keepalive_timeout;
                              tls = tls;
                              reflection = cfg.reflection_enabled;
                              listen = cfg.grpc_listen;
                            }))
                            (λ _ _.
                              let servable =
                                (from_env_and_args_accepts host.parse_addr vars args cfg).0
                                  (map_err-eq-ok invalid_config _ configured) in
                              record {
                                cfg = cfg;
                                servable = servable;
                                built = record {
                                  metrics = map_err-eq-ok host_error _ bound;
                                  database =
                                      Ensures-at (IsMigrated host cfg.db_path) _
                                        (open_and_migrate-Ensures host cfg.db_path)
                                        (map_err-eq-ok host_error _ opened);
                                  limits = refl;
                                  concurrency = refl;
                                  interval = refl;
                                  timeout = refl;
                                  reflection = refl;
                                  listen = refl;
                                  limiter = new_limiter host auth cfg.grpc_rate_limit_rps;
                                  tls =
                                      tls_loaded host cfg.grpc_tls_cert cfg.grpc_tls_key
                                        servable.tls.pair (map_err-eq-ok host_error _ identity);
                                };
                                auth = auth;
                                token = map_err-eq-ok token_error _ token;
                                interceptor = refl;
                              })))))))

  token_kept :
      (token : String) {auth : AuthInterceptor}
      → from_env_var (present token) ≡ ok auth
      → auth ≡ required (trim token)
  unfolding from_env_var
  token_kept token same = elim (Bool-cases (is_empty (trim token))) [
    | inl blank ↦ absurd (ground (arith, blank, same))
    | inr filled ↦ ground (arith, filled, same)
  ]

  new_auth : (auth : AuthInterceptor) (rps : Option ℕ) → (new_interceptor host auth rps).auth ≡ auth
  new_auth auth none = refl
  new_auth auth (some n) = refl

  module _ (server : Server Addr Conn Identity Limiter)
      (started : start_server host vars args ≡ ok server) where
    is_started : IsStarted server
    is_started = Ensures-at IsStarted _ start_server-Ensures started

    -- A server that main starts has a configuration in which every field is what its variable or
    -- argument says and within its bounds, and is built from it: it has the limits, the
    -- concurrency, the keepalive, the address and the switch for reflection of the configuration,
    -- a limiter for its rate, a bound metrics address, and a database that has been opened at its
    -- path and then been given the migration and the pragmas. It has the TLS identity of the
    -- certificate and the key exactly when these are configured: it never falls back to plain
    -- text.
    pub start_server-IsServable :
        (cfg : ServiceConfig host.parse_addr) × IsServable host.parse_addr vars args cfg
        × IsBuilt host cfg server
    start_server-IsServable = let s = is_started in (s.cfg, s.servable, s.built)

    -- A header that has the token.
    abbrev pub HasToken : String → Option Header → Type 0
    HasToken token header =
        (scheme : String) × (eq_ignore_ascii_case scheme "bearer" ≡ true)
        × (header ≡ some (ascii (header_text scheme (trim token))))

    -- What becomes of a request, with the server after it: one for the ledger has the token, or it is
    -- refused and changes nothing; the reflection service answers as the switch says.
    abbrev pub IsGuarded :
        String
        → Server Addr Conn Identity Limiter
        → Request
        → Bool × Server Addr Conn Identity Limiter
        → Type 0
    IsGuarded token before (ledger_request header) (admitted, later) =
        HasToken token header ⊎ ((admitted ≡ false) × (later ≡ before))
    IsGuarded token before (reflection_request header) (admitted, later) =
        SaysSwitch (var vars "QUOTE_LEDGER_REFLECTION") true admitted × (later ≡ before)

    -- When QUOTE_LEDGER_AUTH_TOKEN is set, a server that main starts lets no request through to
    -- the ledger's service without it: whatever state its limiter has, a request for the ledger
    -- has a header with the word Bearer in any case, one space and the trimmed token, or it is
    -- refused and leaves the server as it was. Requests for the reflection service need no token:
    -- they are let through exactly when QUOTE_LEDGER_REFLECTION, which is on by default, says so.
    -- The comparison of texts of one length is assumed to be equality.
    pub start_server_authenticates :
        (constant_time_eq : String → String → Bool) (check : Limiter → Bool × Limiter)
        (compares : (a b : String) → len a ≡ len b → constant_time_eq a b ≡ str_eq a b)
        (token : String) (limiter : Option Limiter) (limited : ℕ) (request : Request)
        → var vars "QUOTE_LEDGER_AUTH_TOKEN" ≡ present token
        → let now : Server Addr Conn Identity Limiter = record server {
          interceptor = record server.interceptor { limiter = limiter; rate_limited = limited };
        } in
          IsGuarded token now request (admit constant_time_eq check now request)
    start_server_authenticates constant_time_eq check compares token limiter limited
          (ledger_request header) set =
        let s = is_started in
        let same : server.interceptor.auth ≡ required (trim token) =
          ap (λ (ix : LedgerGrpcInterceptor Limiter). ix.auth) s.interceptor
          ∙ new_auth s.auth s.cfg.grpc_rate_limit_rps
          ∙ token_kept token (ap from_env_var (sym set) ∙ s.token) in
        let ix : LedgerGrpcInterceptor Limiter = record server.interceptor {
          limiter = limiter;
          rate_limited = limited;
        } in
        let guarded : HasToken token header
            ⊎ ((is_ok (call constant_time_eq check ix header).0 ≡ false)
                × ((call constant_time_eq check ix header).1 ≡ ix)) =
          rw same (
            call_authenticates constant_time_eq check compares (trim token) limiter limited
              header) in
        elim guarded [
          | inl has ↦ inl has
          | inr (refused, kept) ↦ inr (
            refused,
            ap (λ (i : LedgerGrpcInterceptor Limiter). record server { interceptor = i }) kept,
          )
        ]
    start_server_authenticates constant_time_eq check compares token limiter limited
          (reflection_request header) set =
        let s = is_started in
        (
          subst (λ b. SaysSwitch (var vars "QUOTE_LEDGER_REFLECTION") true b)
              (sym s.built.reflection) s.servable.reflection,
          refl,
        )
