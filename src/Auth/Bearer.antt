-- ===== src/Auth/Bearer.antt =====
-- Which requests `check_request` of src/auth.rs lets through.
use Prim.Native.Char.{char, code}
use Prim.Native.String.{[] as empty, ◌∷◌ as ◌∷ₛ◌}
use text.Mathlib.TextEquality.{Char-path}
use quote_ledger.Common.{
  ◌≡◌, ◌↔◌, refl, ap, ◌∙◌, String, Bool, true, not, ◌&&◌, ◌==◌, Option, none, some, ok, arith,
  str_eq, eq_iff, Bool-cases, Option-cases, inl, inr, &&-right,
}
use quote_ledger.Common.Text.{len}
use quote_ledger.Auth.{
  required, Header, ascii, cons_first, split_once_space, eq_ignore_ascii_case, check_token,
  check_request,
}

-- The scheme, a space and the token.
unfoldable pub header_text : String → String → String
header_text empty token = char 0x20 tt ∷ₛ token
header_text (c ∷ₛ scheme) token = c ∷ₛ header_text scheme token

split_once_space-header :
    (raw scheme token : String)
    → split_once_space raw ≡ some (scheme, token)
    → raw ≡ header_text scheme token
unfolding split_once_space header_text
split_once_space-header empty scheme token h = cc
split_once_space-header (c ∷ₛ raw) scheme token h = elim (Bool-cases (code c == 0x20)) [
  | inl space ↦
      let found : some ("", raw) ≡ some (scheme, token) = rw space at h in
      let no_scheme : scheme ≡ "" = cc found in
      let rest : token ≡ raw = cc found in
      rw (no_scheme, rest) (ap (λ d. d ∷ₛ raw) (Char-path c (char 0x20 tt) (ground (arith, space))))
  | inr other ↦
      let later : cons_first c (split_once_space raw) ≡ some (scheme, token) = rw other at h in
      elim (Option-cases (split_once_space raw)) [
        | inl nothing ↦ absurd (cc (nothing, later))
        | inr ((before, after), split) ↦
            let found : some (c ∷ₛ before, after) ≡ some (scheme, token) = rw split at later in
            let scheme_is : scheme ≡ c ∷ₛ before = cc found in
            let token_is : token ≡ after = cc found in
            rw (scheme_is, token_is)
              (ap (λ r. c ∷ₛ r) (split_once_space-header raw before after split))
      ]
]

has_no_space : String → Bool
has_no_space empty = true
has_no_space (c ∷ₛ s) = not (code c == 0x20) && has_no_space s

header_text_split :
    (scheme token : String)
    → has_no_space scheme ≡ true
    → split_once_space (header_text scheme token) ≡ some (scheme, token)
unfolding split_once_space header_text has_no_space
header_text_split empty token h = refl
header_text_split (c ∷ₛ scheme) token h =
    rw (header_text_split scheme token (&&-right (not (code c == 0x20)) (has_no_space scheme) h))
      (ground arith)

same_case_has_no_space :
    (s t : String) → eq_ignore_ascii_case s t ≡ true → has_no_space t ≡ true → has_no_space s ≡ true
unfolding eq_ignore_ascii_case has_no_space
same_case_has_no_space empty t e h = refl
same_case_has_no_space (c ∷ₛ s) empty e h = cc
same_case_has_no_space (c ∷ₛ s) (d ∷ₛ t) e h = ground (arith, same_case_has_no_space s t)

bearer_has_no_space :
    (scheme : String) → eq_ignore_ascii_case scheme "bearer" ≡ true → has_no_space scheme ≡ true
bearer_has_no_space scheme e =
    same_case_has_no_space scheme "bearer" e (unfold has_no_space in refl)

module _ (constant_time_eq : String → String → Bool)
    (compares : (a b : String) → len a ≡ len b → constant_time_eq a b ≡ str_eq a b) where
  check_token_passes :
      (expected scheme token : String)
      → check_token constant_time_eq expected (scheme, token) ≡ ok tt
      → (eq_ignore_ascii_case scheme "bearer" ≡ true) × (token ≡ expected)
  unfolding check_token
  check_token_passes expected scheme token h =
      ground (arith, compares expected token, eq_iff expected token)

  check_token_same :
      (expected scheme : String)
      → eq_ignore_ascii_case scheme "bearer" ≡ true
      → check_token constant_time_eq expected (scheme, expected) ≡ ok tt
  unfolding check_token
  check_token_same expected scheme bearer =
      rw (bearer, compares expected expected refl, (eq_iff expected expected).1 refl) (ground arith)

  accepted_has_token :
      (expected : String) (header : Option Header)
      → check_request constant_time_eq (required expected) header ≡ ok tt
      → (scheme : String) × (eq_ignore_ascii_case scheme "bearer" ≡ true)
        × (header ≡ some (ascii (header_text scheme expected)))
  unfolding check_request
  accepted_has_token expected none h = absurd (cc h)
  accepted_has_token expected (some Header.not_ascii) h = absurd (cc h)
  accepted_has_token expected (some (ascii raw)) h = elim (Option-cases (split_once_space raw)) [
    | inl nothing ↦ absurd (cc (rw nothing at h))
    | inr ((scheme, token), split) ↦
        let (bearer, same) = check_token_passes expected scheme token (rw split at h) in
        (
          scheme,
          bearer,
          ap (λ r. some (ascii r))
              (split_once_space-header raw scheme token split ∙ ap (header_text scheme) same),
        )
  ]

  -- Where a token is expected, check_request accepts exactly the requests whose authorization
  -- header is readable and consists of the word Bearer in any case, one space, and that token; the
  -- comparison of texts of one length is assumed to be equality.
  pub check_request_accepts :
      (expected : String) (header : Option Header)
      → (check_request constant_time_eq (required expected) header ≡ ok tt) ↔ (
          (scheme : String) × (eq_ignore_ascii_case scheme "bearer" ≡ true)
          × (header ≡ some (ascii (header_text scheme expected))))
  unfolding check_request
  check_request_accepts expected header = (
    accepted_has_token expected header,
    λ (scheme, bearer, is_header). rw is_header (
        rw (header_text_split scheme expected (bearer_has_no_space scheme bearer))
          (check_token_same expected scheme bearer)),
  )
