-- ===== src/Examples/StoreRuns.antt =====
-- The store's theorems at the database of two events (src/store.rs).
use quote_ledger.Common.{arith, ◌≡◌, refl, true, false, none, [], ◌∷◌, ok, is_ok}
use quote_ledger.Domain.Model.{quote_finalized}
use quote_ledger.Wire.{QuoteEvent}
use quote_ledger.Mapping.{domain_event_to_proto}
use quote_ledger.Mapping.RoundTrip.{stored_from}
use quote_ledger.Store.Tables.{
  max_seq_above, coalesce_max_seq, where_rows, next_seq_of, has_key_row, has_event_row, insert_key,
  insert_event, Db, find_key,
}
use quote_ledger.Store.Engine.{Connection}
use quote_ledger.Store.Runs.{Runs}
use quote_ledger.Store.History.{extend, Recorded, Represents, Grows}
use quote_ledger.Store.Append.{
  column_as_u64, encode_quote_event, insert_one, insert_events, read_next_seq, append_rows,
  append_found, idempotency_lookup, append_command_events,
}
use quote_ledger.Store.Contract.{append_new}
use quote_ledger.Store.Atomic.{append_command_events-undone}
use quote_ledger.Examples.PlainCodec.{plain_codec, plain_codec-IsLossless}
use quote_ledger.Examples.Database.{two_events, two_history, two_events-Represents}

abbrev finalized_event : QuoteEvent
finalized_event = domain_event_to_proto quote_finalized

unused_key : find_key two_events.keys "q-1" "c-3" ≡ none
unfolding find_key
unused_key = refl

append_new_example :
    (db' : Db) × Runs
      (append_command_events plain_codec "q-1" "c-3" (finalized_event ∷ []))
      two_events
      (ok (stored_from "q-1" 3 (finalized_event ∷ [])))
      db'
    × Represents plain_codec db' (extend two_history "q-1" (finalized_event ∷ []))
    × Recorded db'
        (extend two_history "q-1" (finalized_event ∷ []))
        "q-1"
        "c-3"
        (two_history "q-1")
        (finalized_event ∷ [])
    × Grows two_events two_history db' (extend two_history "q-1" (finalized_event ∷ []))
append_new_example =
    append_new plain_codec plain_codec-IsLossless two_events two_history "q-1" "c-3" finalized_event
      [] two_events-Represents unused_key (omega arith)

-- The engine fails at the commit.
abbrev failing : Connection
failing = record { db = two_events; faults = false ∷ false ∷ false ∷ false ∷ false ∷ true ∷ [] }

fails :
    is_ok (append_command_events plain_codec "q-1" "c-3" (finalized_event ∷ []) failing).0 ≡ false
unfolding append_command_events idempotency_lookup find_key append_found append_rows read_next_seq
    insert_events insert_one encode_quote_event plain_codec insert_event insert_key has_event_row
    has_key_row next_seq_of where_rows coalesce_max_seq max_seq_above column_as_u64
fails = refl

append_command_events-undone_example :
    (append_command_events plain_codec "q-1" "c-3" (finalized_event ∷ []) failing).1.db ≡ two_events
append_command_events-undone_example =
    append_command_events-undone plain_codec "q-1" "c-3" (finalized_event ∷ []) failing fails
