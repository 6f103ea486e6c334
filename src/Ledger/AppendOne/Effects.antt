-- ===== src/Ledger/AppendOne/Effects.antt =====
-- What a call of `append_one` does to each part of the ledger (src/ledger.rs).
use quote_ledger.Common.{
  ◌≡◌, refl, String, Option, none, some, List, last, Result, Result-cases, Option-cases, inl, inr,
  ok, err, map_err,
}
use quote_ledger.Domain.Model.{DomainCommand}
use quote_ledger.Wire.{QuoteCommand, StoredEvent, Status, StoreError}
use quote_ledger.Mapping.{proto_command_to_domain, store_error_to_status}
use quote_ledger.Store.Codec.{Codec}
use quote_ledger.Store.Engine.{Connection}
use quote_ledger.Ledger.State.{
  Ledger, Bus, send_head, db, publish_head, enter, leave, fetch_sub-fetch_add,
}
use quote_ledger.Ledger.Closure.{append_closure}
use quote_ledger.Ledger.AppendOne.{append_guarded, append_one}

unfoldable pub published : Bus → String → Option StoredEvent → Bus
published bus q none = bus
published bus q (some e) = send_head bus q e.seq

-- The bus after an answer: the seq of its last event has been sent.
abbrev pub bus_after : Bus → String → Result (List StoredEvent) StoreError → Bus
bus_after bus q (err e) = bus
bus_after bus q (ok stored) = published bus q (last stored)

module _ (codec : Codec) (q c : String) (cmd : QuoteCommand) (ledger : Ledger) where
  -- A command without a kind is refused before the database is touched.
  module _ {status : Status} (refused : proto_command_to_domain cmd ≡ err status) where
    pub append_one_malformed :
        ((append_one codec q c cmd ledger).0 ≡ err status)
        × ((append_one codec q c cmd ledger).1.conn ≡ ledger.conn)
        × ((append_one codec q c cmd ledger).1.bus ≡ ledger.bus)
        × ((append_one codec q c cmd ledger).1.in_flight ≡ ledger.in_flight)
    unfolding append_one append_guarded enter leave
    append_one_malformed = rw refused (refl, refl, refl, fetch_sub-fetch_add ledger.in_flight)

  -- Otherwise the closure's answer is the call's.
  module _ {d : DomainCommand} (parsed : proto_command_to_domain cmd ≡ ok d) where
    -- The call answers what the closure answers, keeps the closure's connection, sends the head of
    -- a good answer, and leaves the in-flight counter as it found it.
    pub append_one_answer :
        (r : Result (List StoredEvent) StoreError) (conn : Connection)
        → append_closure codec q c d ledger.conn ≡ (r, conn)
        → ((append_one codec q c cmd ledger).0 ≡ map_err store_error_to_status r)
          × ((append_one codec q c cmd ledger).1.conn ≡ conn)
          × ((append_one codec q c cmd ledger).1.bus ≡ bus_after ledger.bus q r)
          × ((append_one codec q c cmd ledger).1.in_flight ≡ ledger.in_flight)
    unfolding append_one append_guarded enter leave db publish_head published
    append_one_answer (ok stored) conn answered = elim (Option-cases (last stored)) [
      | inl nothing ↦
          rw (parsed, answered)
            (rw nothing (refl, refl, refl, fetch_sub-fetch_add ledger.in_flight))
      | inr (e, head) ↦
          rw (parsed, answered) (rw head (refl, refl, refl, fetch_sub-fetch_add ledger.in_flight))
    ]
    append_one_answer (err e) conn answered =
        rw (parsed, answered) (refl, refl, refl, fetch_sub-fetch_add ledger.in_flight)

  -- Whatever the request and wherever the engine fails, a call of append_one leaves the in-flight
  -- counter as it found it.
  in_flight-append_one : (append_one codec q c cmd ledger).1.in_flight ≡ ledger.in_flight
  in_flight-append_one = elim (Result-cases (proto_command_to_domain cmd)) [
    | inl (d, parsed) ↦ (append_one_answer parsed _ _ refl).3
    | inr (status, refused) ↦ (append_one_malformed refused).3
  ]
