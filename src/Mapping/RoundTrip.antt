-- ===== src/Mapping/RoundTrip.antt =====
-- Events survive the trip through the wire format, and stored histories replay as domain histories.
use quote_ledger.Common.{
  ℕ, suc, ◌≡◌, refl, String, some, List, [], ◌∷◌, map, ok, map_err, Result-cases, inl, inr,
}
use quote_ledger.Domain.Model.{
  QuoteState, default_state, DomainEvent, quote_created, line_item_added, quote_finalized,
}
use quote_ledger.Domain.Reducer.{reduce, replay_from, replay}
use quote_ledger.Wire.{QuoteEvent, StoredEvent, StoreError}
use quote_ledger.Mapping.{
  domain_event_to_proto, stored_event_to_domain_event_store, replay_stored_from,
  replay_stored_to_state,
}

abbrev pub stored_event : String → ℕ → QuoteEvent → StoredEvent
stored_event q n ev = record { seq = n; quote_id = q; event = some ev }

-- The stored events of a quote, numbered onwards from `n`.
abbrev pub stored_from : String → ℕ → List QuoteEvent → List StoredEvent
stored_from q n [] = []
stored_from q n (ev ∷ events) = stored_event q n ev ∷ stored_from q (suc n) events

-- An event that is converted to its message and stored under any quote and seq is converted back
-- to the same event.
pub stored_event_round_trip :
    (q : String) (n : ℕ) (ev : DomainEvent)
    → stored_event_to_domain_event_store (stored_event q n (domain_event_to_proto ev)) ≡ ok ev
unfolding stored_event_to_domain_event_store domain_event_to_proto
stored_event_round_trip q n (quote_created cur jur) = refl
stored_event_round_trip q n (line_item_added id sku desc quantity unit) = refl
stored_event_round_trip q n quote_finalized = refl

replay_stored_from-proto :
    (s : QuoteState) (q : String) (n : ℕ) (events : List DomainEvent)
    → replay_stored_from s (stored_from q n (map domain_event_to_proto events))
      ≡ map_err StoreError.domain (replay_from s events)
unfolding replay_stored_from replay_from
replay_stored_from-proto s q n [] = refl
replay_stored_from-proto s q n (ev ∷ events) =
    rw (stored_event_round_trip q n ev) (elim (Result-cases (reduce s ev)) [
      | inl (s', e) ↦ rw e (replay_stored_from-proto s' q (suc n) events)
      | inr (_, e) ↦ rw e refl
    ])

-- Replaying the stored messages of a domain history, from any seq on, is replaying the history
-- itself, its errors included.
pub replay_stored-eq-replay :
    (q : String) (n : ℕ) (events : List DomainEvent)
    → replay_stored_to_state (stored_from q n (map domain_event_to_proto events))
      ≡ map_err StoreError.domain (replay events)
unfolding replay_stored_to_state replay
replay_stored-eq-replay q n events = replay_stored_from-proto default_state q n events
