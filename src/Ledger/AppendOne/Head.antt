-- ===== src/Ledger/AppendOne/Head.antt =====
-- The head that `publish_head` sends to a quote's subscribers (src/ledger.rs).
use quote_ledger.Common.{
  ℕ, ◌≡◌, refl, sym, ap, ◌∙◌, String, false, some, List, [], ◌∷◌, last, Result-cases, Bool-cases,
  inl, inr, ok, map_err-eq-ok, arith, str_eq, eq_iff, if◌then◌else◌,
}
use quote_ledger.Wire.{QuoteCommand, StoredEvent}
use quote_ledger.Mapping.{proto_command_to_domain, store_error_to_status}
use quote_ledger.Store.Codec.{Codec}
use quote_ledger.Ledger.State.{Ledger, Bus, send_head, head_of}
use quote_ledger.Ledger.Closure.{append_closure}
use quote_ledger.Ledger.AppendOne.{append_one}
use quote_ledger.Ledger.AppendOne.Effects.{published, append_one_malformed, append_one_answer}

head_of-send_head : (bus : Bus) (q : String) (n : ℕ) → head_of (send_head bus q n) q ≡ some n
unfolding head_of send_head
head_of-send_head [] q n = ground (arith, eq_iff q q)
head_of-send_head ((j, sent) ∷ bus) q n = elim (Bool-cases (str_eq j q)) [
  | inl same ↦ rw same (rw same refl)
  | inr other ↦ rw other (rw other (head_of-send_head bus q n))
]

head_of-send_head_other :
    (bus : Bus) (q j : String) (n : ℕ)
    → str_eq q j ≡ false
    → head_of (send_head bus q n) j ≡ head_of bus j
unfolding head_of send_head
head_of-send_head_other [] q j n other = rw other refl
head_of-send_head_other ((k, sent) ∷ bus) q j n other = elim (Bool-cases (str_eq k q)) [
  | inl same ↦
      let unlike : str_eq k j ≡ false = rw ((eq_iff k q).0 same) other in rw same (rw unlike refl)
  | inr differ ↦ rw differ (elim (Bool-cases (str_eq k j)) [
    | inl this ↦ rw this refl
    | inr that ↦ rw that (head_of-send_head_other bus q j n other)
  ])
]

module _ (codec : Codec) (q c : String) (cmd : QuoteCommand) (ledger : Ledger) where
  published_bus :
      (stored : List StoredEvent)
      → (append_one codec q c cmd ledger).0 ≡ ok stored
      → (append_one codec q c cmd ledger).1.bus ≡ published ledger.bus q (last stored)
  published_bus stored answer = elim (Result-cases (proto_command_to_domain cmd)) [
    | inl (d, parsed) ↦
        let (same, _, bus, _) =
          append_one_answer codec q c cmd ledger parsed (append_closure codec q c d ledger.conn).0 _
            refl in
        let good =
          map_err-eq-ok store_error_to_status (append_closure codec q c d ledger.conn).0
            (sym same ∙ answer) in
        (append_one_answer codec q c cmd ledger parsed (ok stored)
          (append_closure codec q c d ledger.conn).1
          (ap (λ r. (r, (append_closure codec q c d ledger.conn).1)) good)).2
    | inr (status, refused) ↦
        absurd (cc (answer, (append_one_malformed codec q c cmd ledger refused).0))
  ]

  -- A call of append_one that answers with stored events makes the seq of the last of them the
  -- head of the quote on the bus, whatever the head was before and also when the events are old
  -- ones; the heads of other quotes stay.
  pub append_one-head :
      (stored : List StoredEvent) (e : StoredEvent) (j : String)
      → (append_one codec q c cmd ledger).0 ≡ ok stored
      → last stored ≡ some e
      → head_of (append_one codec q c cmd ledger).1.bus j
        ≡ (if str_eq q j then some e.seq else head_of ledger.bus j)
  unfolding published
  append_one-head stored e j answer newest = rw (published_bus stored answer) (
      rw newest (elim (Bool-cases (str_eq q j)) [
        | inl same ↦ rw (same, ← (eq_iff q j).0 same) (head_of-send_head ledger.bus q e.seq)
        | inr other ↦ rw other (head_of-send_head_other ledger.bus q j e.seq other)
      ]))
