-- ===== src/Config/Sections.antt =====
-- What the sections of `ServiceConfig::from_env_and_args` of src/config.rs accept.
use quote_ledger.Common.{
  Bool, ◌↔◌, Ensures, Ensures-at, Ensures-bind, Ensures-refuse_if, ℕ, ◌<◌, ◌≤◌, ◌≡◌, refl, String,
  false, not, ◌&&◌, ltb, leb, Option, none, some, ok, arith,
}
use quote_ledger.Config.Env.{
  env_bool, Vars, var, below_one, idle_timeout_range, keepalive_order, u64_limit, env_u64,
  env_usize, env_opt_nonzero_u32, env_opt_path,
}
use quote_ledger.Config.Says.{
  SaysNumber, SaysPath, SaysRate, SaysSwitch, read_u64-SaysNumber, read_path-SaysPath,
  read_rate-SaysRate, read_bool-SaysSwitch,
}
use quote_ledger.Config.Service.{
  ReliabilityLimits, tls_pair, read_limits, read_concurrency, read_keepalive, read_tls,
}
use quote_ledger.Config.Bounds.{read_u64-Ensures, read-IsRate, IsRate, IsPair}

module _ (vars : Vars) where
  env_usize_width :
      (name : String) (default n : ℕ)
      → default < u64_limit
      → env_usize vars name default ≡ ok n
      → n < u64_limit
  unfolding env_usize
  env_usize_width name default n small same =
      Ensures-at (λ m. m < u64_limit) _ (read_u64-Ensures name default (var vars name) small) same

  env_u64_width :
      (name : String) (default n : ℕ)
      → default < u64_limit
      → env_u64 vars name default ≡ ok n
      → n < u64_limit
  unfolding env_u64
  env_u64_width name default n small same =
      Ensures-at (λ m. m < u64_limit) _ (read_u64-Ensures name default (var vars name) small) same

  pub read_opt-IsRate :
      (name : String) {rate : Option ℕ} → env_opt_nonzero_u32 vars name ≡ ok rate → IsRate rate
  unfolding env_opt_nonzero_u32
  read_opt-IsRate name same = Ensures-at IsRate _ (read-IsRate name (var vars name)) same

  env_u64-SaysNumber :
      (name : String) (default n : ℕ)
      → (env_u64 vars name default ≡ ok n) ↔ SaysNumber (var vars name) default n
  unfolding env_u64
  env_u64-SaysNumber name default n = read_u64-SaysNumber name default (var vars name) n

  env_usize-SaysNumber :
      (name : String) (default n : ℕ)
      → (env_usize vars name default ≡ ok n) ↔ SaysNumber (var vars name) default n
  unfolding env_usize
  env_usize-SaysNumber name default n = read_u64-SaysNumber name default (var vars name) n

  env_path-SaysPath :
      (name : String) (path : Option String)
      → (env_opt_path vars name ≡ ok path) ↔ SaysPath (var vars name) path
  unfolding env_opt_path
  env_path-SaysPath name path = read_path-SaysPath name (var vars name) path

  pub env_rate-SaysRate :
      (name : String) (rate : Option ℕ)
      → (env_opt_nonzero_u32 vars name ≡ ok rate) ↔ SaysRate (var vars name) rate
  unfolding env_opt_nonzero_u32
  env_rate-SaysRate name rate = read_rate-SaysRate name (var vars name) rate

  pub env_bool-SaysSwitch :
      (name : String) (default b : Bool)
      → (env_bool vars name default ≡ ok b) ↔ SaysSwitch (var vars name) default b
  unfolding env_bool
  env_bool-SaysSwitch name default b = read_bool-SaysSwitch name default (var vars name) b

  -- An idle timeout from 1 ms to an hour, and at least one command.
  pub record IsLimits (r : ReliabilityLimits) : Type 0 where
    pub idle : SaysNumber (var vars "APPEND_IDLE_TIMEOUT_MS") 10_000 r.append_idle_timeout
    pub idle_least : 1 ≤ r.append_idle_timeout
    pub idle_most : r.append_idle_timeout ≤ 3_600_000
    pub commands : SaysNumber (var vars "APPEND_MAX_COMMANDS") 512 r.append_max_commands
    pub commands_least : 1 ≤ r.append_max_commands
    pub commands_width : r.append_max_commands < u64_limit

  pub read_limits-IsLimits : Ensures IsLimits (read_limits vars)
  unfolding read_limits
  read_limits-IsLimits =
      Ensures-bind IsLimits (env_u64 vars "APPEND_IDLE_TIMEOUT_MS" 10_000) _ (λ idle idle_set.
        Ensures-bind IsLimits (env_usize vars "APPEND_MAX_COMMANDS" 512) _ (λ commands commands_set.
          Ensures-refuse_if IsLimits (ltb commands 1) (below_one "APPEND_MAX_COMMANDS") _ (λ least.
            Ensures-refuse_if IsLimits (not (leb 1 idle && leb idle 3_600_000)) idle_timeout_range _
              (λ range. record {
                idle = (env_u64-SaysNumber "APPEND_IDLE_TIMEOUT_MS" 10_000 idle).0 idle_set;
                idle_least = ground arith;
                idle_most = ground arith;
                commands = (env_usize-SaysNumber "APPEND_MAX_COMMANDS" 512 commands).0 commands_set;
                commands_least = ground arith;
                commands_width =
                    env_usize_width "APPEND_MAX_COMMANDS" 512 commands (omega arith) commands_set;
              }))))

  pub IsLimits-read_limits : (r : ReliabilityLimits) → IsLimits r → read_limits vars ≡ ok r
  unfolding read_limits
  IsLimits-read_limits r s =
      let least : ltb r.append_max_commands 1 ≡ false = ground (arith, s.commands_least) in
      let range : not (leb 1 r.append_idle_timeout && leb r.append_idle_timeout 3_600_000) ≡ false =
        ground (arith, s.idle_least, s.idle_most) in
      let idle =
        (env_u64-SaysNumber "APPEND_IDLE_TIMEOUT_MS" 10_000 r.append_idle_timeout).1 s.idle in
      let commands =
        (env_usize-SaysNumber "APPEND_MAX_COMMANDS" 512 r.append_max_commands).1 s.commands in
      rw (idle, commands, least, range) refl

  -- At least one request for a connection.
  pub record IsConcurrency (n : ℕ) : Type 0 where
    pub limit : SaysNumber (var vars "GRPC_CONCURRENCY_LIMIT") 128 n
    pub least : 1 ≤ n
    pub width : n < u64_limit

  pub read_concurrency-IsConcurrency : Ensures IsConcurrency (read_concurrency vars)
  unfolding read_concurrency
  read_concurrency-IsConcurrency =
      Ensures-bind IsConcurrency (env_usize vars "GRPC_CONCURRENCY_LIMIT" 128) _ (λ n limit.
        Ensures-refuse_if IsConcurrency (ltb n 1) (below_one "GRPC_CONCURRENCY_LIMIT") _ (λ least.
          record {
            limit = (env_usize-SaysNumber "GRPC_CONCURRENCY_LIMIT" 128 n).0 limit;
            least = ground arith;
            width = env_usize_width "GRPC_CONCURRENCY_LIMIT" 128 n (omega arith) limit;
          }))

  pub IsConcurrency-read_concurrency : (n : ℕ) → IsConcurrency n → read_concurrency vars ≡ ok n
  unfolding read_concurrency
  IsConcurrency-read_concurrency n s =
      let least : ltb n 1 ≡ false = ground (arith, s.least) in
      let limit = (env_usize-SaysNumber "GRPC_CONCURRENCY_LIMIT" 128 n).1 s.limit in
      rw (limit, least) refl

  -- A timeout of at least 1 ms that is below the interval.
  pub record IsKeepalive (keepalive : ℕ × ℕ) : Type 0 where
    pub interval : SaysNumber (var vars "GRPC_KEEPALIVE_INTERVAL_MS") 30_000 keepalive.0
    pub width : keepalive.0 < u64_limit
    pub timeout : SaysNumber (var vars "GRPC_KEEPALIVE_TIMEOUT_MS") 10_000 keepalive.1
    pub least : 1 ≤ keepalive.1
    pub most : keepalive.1 < keepalive.0

  pub read_keepalive-IsKeepalive : Ensures IsKeepalive (read_keepalive vars)
  unfolding read_keepalive
  read_keepalive-IsKeepalive =
      Ensures-bind IsKeepalive (env_u64 vars "GRPC_KEEPALIVE_INTERVAL_MS" 30_000) _ (λ interval set.
        Ensures-bind IsKeepalive (env_u64 vars "GRPC_KEEPALIVE_TIMEOUT_MS" 10_000) _
          (λ timeout then.
            Ensures-refuse_if IsKeepalive (ltb interval 1) (below_one "GRPC_KEEPALIVE_INTERVAL_MS")
              _
              (λ _.
                Ensures-refuse_if IsKeepalive (ltb timeout 1)
                  (below_one "GRPC_KEEPALIVE_TIMEOUT_MS") _
                  (λ least.
                    Ensures-refuse_if IsKeepalive (leb interval timeout) keepalive_order _ (λ order.
                      record {
                        interval =
                            (env_u64-SaysNumber "GRPC_KEEPALIVE_INTERVAL_MS" 30_000 interval).0 set;
                        width =
                            env_u64_width "GRPC_KEEPALIVE_INTERVAL_MS" 30_000 interval (omega arith)
                              set;
                        timeout =
                            (env_u64-SaysNumber "GRPC_KEEPALIVE_TIMEOUT_MS" 10_000 timeout).0 then;
                        least = ground arith;
                        most = ground arith;
                      })))))

  pub IsKeepalive-read_keepalive :
      (keepalive : ℕ × ℕ) → IsKeepalive keepalive → read_keepalive vars ≡ ok keepalive
  unfolding read_keepalive
  IsKeepalive-read_keepalive (interval, timeout) s =
      let some_interval : ltb interval 1 ≡ false = ground (arith, s.least, s.most) in
      let some_timeout : ltb timeout 1 ≡ false = ground (arith, s.least) in
      let order : leb interval timeout ≡ false = ground (arith, s.most) in
      let set = (env_u64-SaysNumber "GRPC_KEEPALIVE_INTERVAL_MS" 30_000 interval).1 s.interval in
      let then = (env_u64-SaysNumber "GRPC_KEEPALIVE_TIMEOUT_MS" 10_000 timeout).1 s.timeout in
      rw (set, then, some_interval, some_timeout, order) refl

  -- Certificate and key, both or neither.
  pub record IsTls (tls : Option String × Option String) : Type 0 where
    pub cert : SaysPath (var vars "GRPC_TLS_CERT") tls.0
    pub key : SaysPath (var vars "GRPC_TLS_KEY") tls.1
    pub pair : IsPair tls.0 tls.1

  pub read_tls-IsTls : Ensures IsTls (read_tls vars)
  unfolding read_tls
  read_tls-IsTls = Ensures-bind IsTls (env_opt_path vars "GRPC_TLS_CERT") _ (λ cert cert_set.
      Ensures-bind IsTls (env_opt_path vars "GRPC_TLS_KEY") _
        (λ key key_set. pair_read cert key cert_set key_set))
    where
      pair_read :
          (cert key : Option String)
          → env_opt_path vars "GRPC_TLS_CERT" ≡ ok cert
          → env_opt_path vars "GRPC_TLS_KEY" ≡ ok key
          → Ensures IsTls (tls_pair cert key)
      pair_read none none cert key = record {
        cert = (env_path-SaysPath "GRPC_TLS_CERT" _).0 cert;
        key = (env_path-SaysPath "GRPC_TLS_KEY" _).0 key;
        pair = tt;
      }
      pair_read none (some k) cert key = tt
      pair_read (some c) none cert key = tt
      pair_read (some c) (some k) cert key = record {
        cert = (env_path-SaysPath "GRPC_TLS_CERT" _).0 cert;
        key = (env_path-SaysPath "GRPC_TLS_KEY" _).0 key;
        pair = tt;
      }

  IsPair-tls_pair :
      (cert key : Option String) → IsPair cert key → tls_pair cert key ≡ ok (cert, key)
  IsPair-tls_pair none none pair = refl
  IsPair-tls_pair none (some key) pair = absurd pair
  IsPair-tls_pair (some cert) none pair = absurd pair
  IsPair-tls_pair (some cert) (some key) pair = refl

  pub IsTls-read_tls : (tls : Option String × Option String) → IsTls tls → read_tls vars ≡ ok tls
  unfolding read_tls
  IsTls-read_tls (cert, key) s =
      let cert_set = (env_path-SaysPath "GRPC_TLS_CERT" cert).1 s.cert in
      let key_set = (env_path-SaysPath "GRPC_TLS_KEY" key).1 s.key in
      rw (cert_set, key_set) (IsPair-tls_pair cert key s.pair)
