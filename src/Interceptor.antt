-- ===== src/Interceptor.antt =====
-- src/grpc_interceptor.rs: authentication first, then the rate limit of the process. The limiter of
-- the library governor is a parameter: a state, and what a check of it answers and leaves.
use quote_ledger.Common.{
  ℕ, ◌+◌, ◌≡◌, refl, ◌⊎◌, inl, inr, String, Bool, true, false, Option, none, some, Result, ok, err,
  is_ok, Result-cases, str_eq, if◌then◌else◌,
}
use quote_ledger.Common.Text.{len}
use quote_ledger.Wire.{Status, Code, Message}
use quote_ledger.Mapping.{status}
use quote_ledger.Auth.{
  AuthInterceptor, required, Header, ascii, eq_ignore_ascii_case, check_request, intercept,
}
use quote_ledger.Auth.Bearer.{header_text, check_request_accepts}

-- With the counter `quote_ledger_grpc_rate_limited_total`.
pub record LedgerGrpcInterceptor (Limiter : Type 0) : Type 0 where
  pub auth : AuthInterceptor
  pub limiter : Option Limiter
  pub rate_limited : ℕ

module _ (constant_time_eq : String → String → Bool) {Limiter : Type 0}
    (check : Limiter → Bool × Limiter) where
  -- `if let Some(lim) = &self.limiter { … }`
  abbrev pub call_limiter :
      LedgerGrpcInterceptor Limiter
      → Option Limiter
      → Result (Unit {0}) Status × LedgerGrpcInterceptor Limiter
  call_limiter ix none = (ok tt, ix)
  call_limiter ix (some lim) =
      let (granted, lim') = check lim in
      if granted then (ok tt, record ix { limiter = some lim' }) else (
        err (
            status Code.resource_exhausted
              (Message.text "global gRPC request rate limit exceeded (set GRPC_RATE_LIMIT_RPS)")),
        record ix { limiter = some lim'; rate_limited = ix.rate_limited + 1 },
      )

  abbrev pub call_after :
      LedgerGrpcInterceptor Limiter
      → Result (Unit {0}) Status
      → Result (Unit {0}) Status × LedgerGrpcInterceptor Limiter
  call_after ix (err refusal) = (err refusal, ix)
  call_after ix (ok passed) = call_limiter ix ix.limiter

  unfoldable pub call :
      LedgerGrpcInterceptor Limiter
      → Option Header
      → Result (Unit {0}) Status × LedgerGrpcInterceptor Limiter
  call ix header = call_after ix (intercept constant_time_eq ix.auth header)

  -- Where a token is expected, a call of the interceptor has a header with the word Bearer in any
  -- case, one space and that token, or it is refused and leaves the interceptor as it was, so that
  -- it takes nothing from the rate limit; the comparison of texts of one length is assumed to be
  -- equality.
  pub call_authenticates :
      (compares : (a b : String) → len a ≡ len b → constant_time_eq a b ≡ str_eq a b)
      (expected : String) (limiter : Option Limiter) (limited : ℕ) (header : Option Header)
      → let ix : LedgerGrpcInterceptor Limiter = record {
        auth = required expected;
        limiter = limiter;
        rate_limited = limited;
      } in
        ((scheme : String) × (eq_ignore_ascii_case scheme "bearer" ≡ true)
          × (header ≡ some (ascii (header_text scheme expected))))
        ⊎ ((is_ok (call ix header).0 ≡ false) × ((call ix header).1 ≡ ix))
  unfolding call
  call_authenticates compares expected limiter limited header =
      elim (Result-cases (check_request constant_time_eq (required expected) header)) [
        | inl (passed, accepted) ↦
            inl ((check_request_accepts constant_time_eq compares expected header).0 accepted)
        | inr (refusal, refused) ↦ inr (rw refused (refl, refl))
      ]
