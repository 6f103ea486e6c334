-- ===== src/Config/Accepted.antt =====
-- What a configuration that `ServiceConfig::from_env_and_args` of src/config.rs accepts is.
use quote_ledger.Common.{
  Ensures, Ensures-at, Ensures-bind, ◌≡◌, ◌↔◌, refl, String, true, Option, none, some, List, ok,
  ok_or,
}
use quote_ledger.Config.Env.{
  OsText, Vars, var, ConfigError, bad_address, env_bool, env_opt_nonzero_u32,
  validate_strict_unknown,
}
use quote_ledger.Config.Service.{
  var_or, ServiceConfig, read_limits, read_concurrency, read_keepalive, read_tls, listen_addr,
  from_env_and_args,
}
use quote_ledger.Config.Says.{
  SaysText, SaysRate, SaysSwitch, ListensAt, listen_addr-ListensAt, var_or-SaysText,
  SaysText-unique,
}
use quote_ledger.Config.Bounds.{IsRate}
use quote_ledger.Config.Sections.{
  env_bool-SaysSwitch, env_rate-SaysRate, read_opt-IsRate, IsLimits, read_limits-IsLimits,
  IsLimits-read_limits, IsConcurrency, read_concurrency-IsConcurrency,
  IsConcurrency-read_concurrency, IsKeepalive, read_keepalive-IsKeepalive,
  IsKeepalive-read_keepalive, IsTls, read_tls-IsTls, IsTls-read_tls,
}

module _ {Addr : Type 0} (parse_addr : String → Option Addr) (vars : Vars)
    (args : List OsText) where
  -- Each field is what its variable or the argument says, by its default where that is not set, and
  -- within its bounds.
  pub record IsServable (c : ServiceConfig parse_addr) : Type 0 where
    pub names : validate_strict_unknown vars ≡ ok tt
    pub listen : ListensAt parse_addr (var vars "GRPC_LISTEN_ADDR") args c.grpc_listen
    pub metrics :
        (t : String) × SaysText (var vars "METRICS_ADDR") "127.0.0.1:9090" t
        × (parse_addr t ≡ some c.metrics_listen)
    pub path : SaysText (var vars "QUOTE_LEDGER_DB") "quote_ledger.db" c.db_path
    pub limits : IsLimits vars c.reliability
    pub concurrency : IsConcurrency vars c.grpc_concurrency_limit
    pub keepalive : IsKeepalive vars (c.grpc_keepalive_interval, c.grpc_keepalive_timeout)
    pub reflection : SaysSwitch (var vars "QUOTE_LEDGER_REFLECTION") true c.reflection_enabled
    pub tls : IsTls vars (c.grpc_tls_cert, c.grpc_tls_key)
    pub rate_set : SaysRate (var vars "GRPC_RATE_LIMIT_RPS") c.grpc_rate_limit_rps
    pub rate : IsRate c.grpc_rate_limit_rps

  addr_found : (e : ConfigError) (o : Option Addr) {a : Addr} → ok_or e o ≡ ok a → o ≡ some a
  addr_found e none same = absurd (cc same)
  addr_found e (some b) same = cc same

  from_env_and_args-IsServable : Ensures IsServable (from_env_and_args parse_addr vars args)
  unfolding from_env_and_args
  from_env_and_args-IsServable =
      Ensures-bind IsServable (validate_strict_unknown vars) _ (λ _ names.
        Ensures-bind IsServable (listen_addr parse_addr args (var vars "GRPC_LISTEN_ADDR")) _
          (λ listen_at listen. Ensures-bind IsServable _ _ (λ metrics_at metrics.
            Ensures-bind IsServable (read_limits vars) _ (λ limits limits_read.
              Ensures-bind IsServable (read_concurrency vars) _ (λ concurrency concurrency_read.
                Ensures-bind IsServable (read_keepalive vars) _ (λ keepalive keepalive_read.
                  Ensures-bind IsServable (env_bool vars "QUOTE_LEDGER_REFLECTION" true) _
                    (λ shown reflection. Ensures-bind IsServable (read_tls vars) _ (λ tls tls_read.
                      Ensures-bind IsServable (env_opt_nonzero_u32 vars "GRPC_RATE_LIMIT_RPS")
                        (λ rate. ok (record {
                          grpc_listen = listen_at;
                          metrics_listen = metrics_at;
                          db_path = var_or "quote_ledger.db" (var vars "QUOTE_LEDGER_DB");
                          reliability = limits;
                          grpc_concurrency_limit = concurrency;
                          grpc_keepalive_interval = keepalive.0;
                          grpc_keepalive_timeout = keepalive.1;
                          reflection_enabled = shown;
                          grpc_tls_cert = tls.0;
                          grpc_tls_key = tls.1;
                          grpc_rate_limit_rps = rate;
                        }))
                        (λ rate rate_set. record {
                          names = names;
                          listen =
                              (listen_addr-ListensAt parse_addr args (var vars "GRPC_LISTEN_ADDR")
                                  listen_at).0
                                listen;
                          metrics = (
                            _,
                            var_or-SaysText (var vars "METRICS_ADDR") "127.0.0.1:9090",
                            addr_found (bad_address "METRICS_ADDR") _ metrics,
                          );
                          path = var_or-SaysText (var vars "QUOTE_LEDGER_DB") "quote_ledger.db";
                          limits =
                              Ensures-at (IsLimits vars) _ (read_limits-IsLimits vars) limits_read;
                          concurrency =
                              Ensures-at (IsConcurrency vars) _
                                (read_concurrency-IsConcurrency vars) concurrency_read;
                          keepalive =
                              Ensures-at (IsKeepalive vars) _ (read_keepalive-IsKeepalive vars)
                                keepalive_read;
                          reflection =
                              (env_bool-SaysSwitch vars "QUOTE_LEDGER_REFLECTION" true shown).0
                                reflection;
                          tls = Ensures-at (IsTls vars) _ (read_tls-IsTls vars) tls_read;
                          rate_set = (env_rate-SaysRate vars "GRPC_RATE_LIMIT_RPS" rate).0 rate_set;
                          rate = read_opt-IsRate vars "GRPC_RATE_LIMIT_RPS" rate_set;
                        })))))))))

  IsServable-accepted :
      (c : ServiceConfig parse_addr) → IsServable c → from_env_and_args parse_addr vars args ≡ ok c
  unfolding from_env_and_args
  IsServable-accepted c s =
      let limits = IsLimits-read_limits vars c.reliability s.limits in
      let concurrency =
        IsConcurrency-read_concurrency vars c.grpc_concurrency_limit s.concurrency in
      let keepalive = IsKeepalive-read_keepalive vars _ s.keepalive in
      let tls = IsTls-read_tls vars _ s.tls in
      let listen =
        (listen_addr-ListensAt parse_addr args (var vars "GRPC_LISTEN_ADDR") c.grpc_listen).1
          s.listen in
      let (t, says, metrics) = s.metrics in
      let text = SaysText-unique (var vars "METRICS_ADDR") "127.0.0.1:9090" t says in
      let reflection =
        (env_bool-SaysSwitch vars "QUOTE_LEDGER_REFLECTION" true c.reflection_enabled).1
          s.reflection in
      let rate =
        (env_rate-SaysRate vars "GRPC_RATE_LIMIT_RPS" c.grpc_rate_limit_rps).1 s.rate_set in
      let path = SaysText-unique (var vars "QUOTE_LEDGER_DB") "quote_ledger.db" c.db_path s.path in
      rw (s.names, listen, text, metrics, limits, concurrency, keepalive)
        (rw (reflection, tls, rate, path) refl)

  -- Whatever parses addresses, a configuration is the answer of from_env_and_args exactly when
  -- every field is what its variable or argument says, by its default where that is not set, and
  -- is within its bounds: an idle timeout from 1 ms to an hour, at least one command for a stream
  -- and one request for a connection, a keepalive timeout of at least 1 ms and below the interval,
  -- TLS certificate and key both or neither, a rate limit of at least 1, integers within their 64
  -- or 32 bits; and the names of the variables pass strict mode.
  pub from_env_and_args_accepts :
      (c : ServiceConfig parse_addr)
      → (from_env_and_args parse_addr vars args ≡ ok c) ↔ IsServable c
  from_env_and_args_accepts c = (
    λ accepted. Ensures-at IsServable _ from_env_and_args-IsServable accepted,
    IsServable-accepted c,
  )
