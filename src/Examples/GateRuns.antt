-- ===== src/Examples/GateRuns.antt =====
-- What a request has to pass first: the token, the limit and the form of its identifiers.
use quote_ledger.Common.{
  ℕ, suc, zero, ◌≡◌, ◌↔◌, refl, ◌⊎◌, String, Bool, true, false, some, ok, is_ok, str_eq,
}
use quote_ledger.Common.Text.{len}
use quote_ledger.Auth.{
  check_token, split_once_space, required, ascii, eq_ignore_ascii_case, check_request,
}
use quote_ledger.Auth.Bearer.{header_text, check_request_accepts}
use quote_ledger.Interceptor.{call, call_authenticates}

check_request_accepts_example :
    (check_request str_eq (required "s3cret") (some (ascii "BEARER s3cret")) ≡ ok tt) ↔ (
      (scheme : String) × (eq_ignore_ascii_case scheme "bearer" ≡ true)
      × (some (ascii "BEARER s3cret") ≡ some (ascii (header_text scheme "s3cret"))))
check_request_accepts_example =
    check_request_accepts str_eq (λ a b same. refl) "s3cret" (some (ascii "BEARER s3cret"))

passes : check_request str_eq (required "s3cret") (some (ascii "BEARER s3cret")) ≡ ok tt
unfolding check_request split_once_space check_token eq_ignore_ascii_case len
passes = refl

-- A limiter with a number of requests left.
abbrev take_one : ℕ → Bool × ℕ
take_one zero = (false, zero)
take_one (suc n) = (true, n)

call_authenticates_example :
    ((scheme : String) × (eq_ignore_ascii_case scheme "bearer" ≡ true)
      × (some (ascii "Bearer guess") ≡ some (ascii (header_text scheme "s3cret"))))
    ⊎ ((is_ok
            (call str_eq take_one
              (record { auth = required "s3cret"; limiter = some 3; rate_limited = 0 })
              (some (ascii "Bearer guess"))).0
          ≡ false)
        × ((call str_eq take_one
              (record { auth = required "s3cret"; limiter = some 3; rate_limited = 0 })
              (some (ascii "Bearer guess"))).1
            ≡ record { auth = required "s3cret"; limiter = some 3; rate_limited = 0 }))
call_authenticates_example =
    call_authenticates str_eq take_one (λ a b same. refl) "s3cret" (some 3) 0
      (some (ascii "Bearer guess"))
