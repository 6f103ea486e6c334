-- ===== src/Ledger/Closure.antt =====
-- The closure that `append_one` of src/ledger.rs runs on the connection.
use quote_ledger.Common
use quote_ledger.Common.{ℕ, ◌-◌, String, Option, none, some, List, [], map, last, Result, map_err}
use quote_ledger.Domain.Model.{DomainCommand}
use quote_ledger.Domain.Reducer.{command_to_events}
use quote_ledger.Wire.{QuoteEvent, StoredEvent, StoreError}
use quote_ledger.Mapping.{domain_event_to_proto, replay_stored_to_state}
use quote_ledger.Store.Engine as Store
use quote_ledger.Store.Engine.{StoreM, ◌>>=◌}
use quote_ledger.Store.Codec.{Codec}
use quote_ledger.Store.Append.{
  idempotency_lookup, load_stored_events, load_stored_events_between, append_command_events,
}

-- The command's events, in the state that the stored events lead to.
unfoldable pub events_after : List StoredEvent → DomainCommand → Result (List QuoteEvent) StoreError
events_after stored cmd = Common.◌>>=◌ (replay_stored_to_state stored) λ state.
    Common.◌>>=◌ (map_err StoreError.domain (command_to_events state cmd))
      λ events. Result.ok (map domain_event_to_proto events)

module _ (codec : Codec) where
  -- The two branches of the closure that `append_one` runs on the connection.
  unfoldable pub append_at :
      String → String → DomainCommand → Option (ℕ × ℕ) → StoreM (List StoredEvent)
  append_at q c cmd (some range) = do
    before ← load_stored_events_between codec q 0 (range.0 - 1)
    events ← Store.lift (events_after before cmd)
    append_command_events codec q c events
  append_at q c cmd none = do
    all ← load_stored_events codec q
    events ← Store.lift (events_after all cmd)
    append_command_events codec q c events

  unfoldable pub append_closure : String → String → DomainCommand → StoreM (List StoredEvent)
  append_closure q c cmd = do found ← idempotency_lookup q c; append_at q c cmd found
