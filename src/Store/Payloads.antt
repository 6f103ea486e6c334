-- ===== src/Store/Payloads.antt =====
-- The comparison of an incoming command's events with the stored ones (`same_command_payloads`).
use quote_ledger.Common.{
  ℕ, suc, ◌≡◌, ◌≢◌, refl, ap, ap₂, ◌∙◌, String, true, false, ◌==◌, List, [], ◌∷◌, length, ok, arith,
  Bool-cases, inl, inr, ◌⊎◌, if◌then◌else◌,
}
use quote_ledger.Wire.{QuoteEvent}
use quote_ledger.Mapping.RoundTrip.{stored_from}
use quote_ledger.Store.Tables.{Bytes}
use quote_ledger.Store.Codec.{Codec, IsLossless}
use quote_ledger.Store.Append.{bytes_eq, encode_quote_event, same_payloads, same_command_payloads}

bytes_eq_sound : (xs ys : Bytes) → bytes_eq xs ys ≡ true → xs ≡ ys
unfolding bytes_eq
bytes_eq_sound [] [] h = refl
bytes_eq_sound [] (y ∷ ys) h = cc
bytes_eq_sound (x ∷ xs) [] h = cc
bytes_eq_sound (x ∷ xs) (y ∷ ys) h = ground (arith, bytes_eq_sound xs ys)

bytes_eq_self : (xs : Bytes) → bytes_eq xs xs ≡ true
unfolding bytes_eq
bytes_eq_self [] = refl
bytes_eq_self (x ∷ xs) = ground (arith, bytes_eq_self xs)

length-stored_from :
    (q : String) (n : ℕ) (events : List QuoteEvent)
    → length (stored_from q n events) ≡ length events
length-stored_from q n [] = refl
length-stored_from q n (ev ∷ events) = ap suc (length-stored_from q (suc n) events)

module _ (codec : Codec) (lossless : IsLossless codec) (q : String) where
  -- Different messages have different encodings.
  encode-injective :
      (a b : QuoteEvent) (bytes : Bytes)
      → codec.encode a ≡ ok bytes
      → codec.encode b ≡ ok bytes
      → a ≡ b
  encode-injective a b bytes ea eb = cc (lossless.decodes a bytes ea, lossless.decodes b bytes eb)

  same_payloads-by_bytes :
      (n : ℕ) (x y : QuoteEvent) (xs ys : List QuoteEvent) (bx by : Bytes)
      → codec.encode x ≡ ok bx
      → codec.encode y ≡ ok by
      → same_payloads codec (stored_from q n (x ∷ xs)) (y ∷ ys)
        ≡ (if bytes_eq bx by then same_payloads codec (stored_from q (suc n) xs) ys else ok false)
  unfolding same_payloads encode_quote_event
  same_payloads-by_bytes n x y xs ys bx by ex ey = rw (ex, ey) refl

  -- Comparing two messages by their bytes is comparing the messages.
  same_payloads-step :
      (n : ℕ) (x y : QuoteEvent) (xs ys : List QuoteEvent)
      → ((x ≡ y)
          × (same_payloads codec (stored_from q n (x ∷ xs)) (y ∷ ys)
              ≡ same_payloads codec (stored_from q (suc n) xs) ys))
        ⊎ ((x ≢ y) × (same_payloads codec (stored_from q n (x ∷ xs)) (y ∷ ys) ≡ ok false))
  same_payloads-step n x y xs ys =
      let (bx, ex) = lossless.encodes x in
      let (by, ey) = lossless.encodes y in
      let computes = same_payloads-by_bytes n x y xs ys bx by ex ey in
      elim (Bool-cases (bytes_eq bx by)) [
        | inl same ↦
            let one = bytes_eq_sound bx by same in
            inl (encode-injective x y by (ex ∙ ap ok one) ey, computes ∙ rw same refl)
        | inr other ↦ inr ((λ e. cc (e, other, bytes_eq_self bx)), computes ∙ rw other refl)
      ]

  pub same_payloads_self :
      (n : ℕ) (xs : List QuoteEvent) → same_payloads codec (stored_from q n xs) xs ≡ ok true
  same_payloads_self n [] = unfold same_payloads in refl
  same_payloads_self n (x ∷ xs) = elim (same_payloads-step n x x xs xs) [
    | inl (_, e) ↦ e ∙ same_payloads_self (suc n) xs
    | inr (ne, _) ↦ absurd (ne refl)
  ]

  same_payloads-other :
      (n : ℕ) (xs ys : List QuoteEvent)
      → length xs ≡ length ys
      → xs ≢ ys
      → same_payloads codec (stored_from q n xs) ys ≡ ok false
  same_payloads-other n [] [] same ne = absurd (ne refl)
  same_payloads-other n [] (y ∷ ys) same ne = absurd (omega arith)
  same_payloads-other n (x ∷ xs) [] same ne = absurd (omega arith)
  same_payloads-other n (x ∷ xs) (y ∷ ys) same ne = elim (same_payloads-step n x y xs ys) [
    | inl (e, step) ↦
        step ∙ same_payloads-other (suc n) xs ys (omega arith) (λ tails. ne (ap₂ ◌∷◌ e tails))
    | inr (_, step) ↦ step
  ]

  pub same_command_payloads_self :
      (n : ℕ) (xs : List QuoteEvent) → same_command_payloads codec (stored_from q n xs) xs ≡ ok true
  unfolding same_command_payloads
  same_command_payloads_self n xs =
      let same : (length (stored_from q n xs) == length xs) ≡ true =
        ground (arith, length-stored_from q n xs) in
      rw same (same_payloads_self n xs)

  -- Any other list of events is told apart.
  pub same_command_payloads-other :
      (n : ℕ) (xs ys : List QuoteEvent)
      → xs ≢ ys
      → same_command_payloads codec (stored_from q n xs) ys ≡ ok false
  unfolding same_command_payloads
  same_command_payloads-other n xs ys ne =
      elim (Bool-cases (length (stored_from q n xs) == length ys)) [
        | inl same ↦
            rw same (same_payloads-other n xs ys (ground (arith, length-stored_from q n xs)) ne)
        | inr other ↦ rw other refl
      ]
