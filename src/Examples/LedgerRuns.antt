-- ===== src/Examples/LedgerRuns.antt =====
-- The ledger's theorems at the database of two events (src/ledger.rs).
use quote_ledger.Examples.PlainCodec.{payload}
use quote_ledger.Mapping.{
  replay_stored_from, replay_stored_to_state, stored_event_to_domain_event_store,
}
use quote_ledger.Domain.Reducer.{has_line_id, require_non_blank}
use quote_ledger.Domain.Money.{
  add_line_totals, line_total_minor, subtotal_minor, tax_minor, tax_rate_bps, total_minor,
}
use quote_ledger.Common.Text.{trim}
use quote_ledger.Common.Int.{try_i64}
use quote_ledger.Store.Tables.{
  select_events, order_by_seq, where_rows, insert_by_seq, coalesce_max_seq, has_event_row,
  has_key_row, insert_event, insert_key, max_seq_above, next_seq_of, select_after, select_seq_range,
}
use quote_ledger.Store.Append.{
  idempotency_lookup, load_stored_events, run_select, read_rows, row_to_stored,
  append_command_events, append_found, append_rows, bytes_eq, column_as_u64, encode_quote_event,
  event_type_for, insert_events, insert_one, load_events_in_seq_range, load_stored_events_between,
  read_next_seq, replay_command, same_command_payloads, same_payloads,
}
use quote_ledger.Ledger.Closure.{append_at, events_after}
use quote_ledger.Ledger.State.{db, enter, leave, publish_head}
use quote_ledger.Ledger.AppendOne.{append_guarded}
use quote_ledger.Common.{
  ◌<◌, arith, ◌≡◌, ◌≢◌, refl, false, some, none, List, [], ◌∷◌, length, ok, err,
}
use quote_ledger.Common.Int.{pos, i64_limit}
use quote_ledger.Domain.Reducer.{command_to_events, reduce, replay, replay_from}
use quote_ledger.Domain.Model.{
  duplicate_line_id, add_line_item, QuoteState, duplicate_create_quote, DomainCommand,
  finalize_quote, quote_finalized, line_item_added,
}
use quote_ledger.Wire.{QuoteCommand, CommandKind, StoredEvent, StoreError, idempotency_conflict}
use quote_ledger.Mapping.{domain_event_to_proto, proto_command_to_domain}
use quote_ledger.Mapping.RoundTrip.{stored_event}
use quote_ledger.Store.Tables.{Db, find_key}
use quote_ledger.Store.Engine.{Connection}
use quote_ledger.Store.Runs.{Runs}
use quote_ledger.Store.History.{extend, Recorded, Grows}
use quote_ledger.Ledger.State.{Ledger, head_of, send_head}
use quote_ledger.Ledger.Closure.{append_closure}
use quote_ledger.Ledger.Sound.{IsSound, extended_domain, closure_accepted, wire_event}
use quote_ledger.Domain.Reducer.Accepted.{event_of}
use quote_ledger.Ledger.Known.{Answers, known_conflict, known_refused}
use quote_ledger.Ledger.Outcome.{Moves, closure-Moves}
use quote_ledger.Ledger.AppendOne.{append_one}
use quote_ledger.Ledger.AppendOne.Head.{append_one-head}
use quote_ledger.Ledger.AppendCommands.{Frame, message, idle_timeout, append_commands}
use quote_ledger.Ledger.AppendCommands.Moving.{append_commands-Moves}
use quote_ledger.Examples.PlainCodec.{plain_codec, plain_codec-IsLossless}
use quote_ledger.Examples.Quotes.{
  create, add_desk, created, added_desk, open_quote, open_quote-IsValid, open_quote_replayed,
  finalize_accepted,
}
use quote_ledger.Examples.Database.{
  two_events, two_history, two_domain, two_history_small, two_events-Represents, two_events-IsSound,
  Recorded-added, added_event,
}

-- The connection does not fail.
abbrev calm : Connection
calm = record { db = two_events; faults = [] }

abbrev pub ledger : Ledger
ledger = record { conn = calm; bus = ("q-1", 2 ∷ []) ∷ []; in_flight = 1; metrics = [] }

abbrev pub finalize : QuoteCommand
finalize = record { kind = some CommandKind.finalize_quote }

abbrev pub add_desk_again : QuoteCommand
add_desk_again = record {
  kind = some (CommandKind.add_line_item "l-1" "DESK" "Desk" (pos 2) (pos 50_000));
}

abbrev pub finalized : StoredEvent
finalized = stored_event "q-1" 3 (domain_event_to_proto quote_finalized)

abbrev frames : List Frame
frames =
    message (record { client_command_id = "c-4"; quote_id = "q-1"; command = some add_desk_again })
    ∷ idle_timeout
    ∷ []

finalize_answer : (append_one plain_codec "q-1" "c-3" finalize ledger).0 ≡ ok (finalized ∷ [])
unfolding append_one append_guarded proto_command_to_domain db append_closure idempotency_lookup
    enter append_at find_key run_select read_rows order_by_seq where_rows insert_by_seq
    row_to_stored plain_codec payload try_i64 trim add_line_totals line_total_minor subtotal_minor
    tax_minor tax_rate_bps total_minor command_to_events has_line_id reduce require_non_blank
    events_after leave publish_head send_head domain_event_to_proto replay_stored_from
    replay_stored_to_state stored_event_to_domain_event_store append_command_events append_found
    encode_quote_event load_stored_events select_events append_rows column_as_u64 event_type_for
    insert_events insert_one read_next_seq coalesce_max_seq has_event_row has_key_row insert_event
    insert_key max_seq_above next_seq_of
finalize_answer = refl

append_commands-Moves_example :
    Moves plain_codec two_events two_history 2
      (append_commands plain_codec 10 frames ledger).1.conn.db
append_commands-Moves_example =
    append_commands-Moves plain_codec plain_codec-IsLossless 10 frames ledger two_history two_domain
      two_events-IsSound (λ q. two_history_small q 2 (omega arith))

closure-Moves_example :
    (m : Moves plain_codec two_events two_history 1
      (append_closure plain_codec "q-1" "c-3" finalize_quote calm).1.db)
    × Answers
        (append_closure plain_codec "q-1" "c-3" finalize_quote calm).1.db
        m.h'
        "q-1"
        "c-3"
        finalize_quote
        (append_closure plain_codec "q-1" "c-3" finalize_quote calm).0
closure-Moves_example =
    closure-Moves plain_codec plain_codec-IsLossless two_events two_history two_domain
      two_events-IsSound "q-1" "c-3" finalize_quote calm refl (omega arith)

open_small : length (two_history "q-1") < i64_limit
open_small = omega arith

abbrev created_quote : QuoteState
created_quote = record {
  currency_code = some "USD";
  jurisdiction_id = some "US-CA";
  finalized = false;
  lines = [];
}

replayed_created : replay (created ∷ []) ≡ ok created_quote
unfolding replay replay_from reduce
replayed_created = refl

add_accepted : command_to_events created_quote add_desk ≡ ok (added_desk ∷ [])
unfolding command_to_events require_non_blank trim has_line_id line_total_minor try_i64 total_minor
    subtotal_minor add_line_totals tax_minor tax_rate_bps
add_accepted = refl

-- The same key with another acceptable command.
abbrev add_chair : DomainCommand
add_chair = add_line_item "l-2" "CHAIR" "Chair" (pos 4) (pos 9_900)

add_chair_accepted :
    command_to_events created_quote add_chair
    ≡ ok (line_item_added "l-2" "CHAIR" "Chair" (pos 4) (pos 9_900) ∷ [])
unfolding command_to_events require_non_blank trim has_line_id line_total_minor try_i64 total_minor
    subtotal_minor add_line_totals tax_minor tax_rate_bps
add_chair_accepted = refl

chair_is_other : added_event ∷ [] ≢ wire_event add_chair ∷ []
unfolding event_of domain_event_to_proto
chair_is_other = λ e. cc e

create_refused : command_to_events created_quote create ≡ err duplicate_create_quote
unfolding command_to_events
create_refused = refl

added_is_desk : added_event ∷ [] ≡ wire_event add_desk ∷ []
unfolding event_of
added_is_desk = refl

known_conflict_example :
    Runs
      (append_closure plain_codec "q-1" "c-2" add_chair)
      two_events
      (err (idempotency_conflict "q-1" "c-2"))
      two_events
known_conflict_example =
    known_conflict plain_codec plain_codec-IsLossless two_events two_history "q-1" "c-2"
      (created ∷ []) created_quote added_event [] two_events-Represents Recorded-added
      replayed_created open_small add_chair add_chair_accepted chair_is_other

known_refused_example :
    Runs
      (append_closure plain_codec "q-1" "c-2" create)
      two_events
      (err (StoreError.domain duplicate_create_quote))
      two_events
known_refused_example =
    known_refused plain_codec plain_codec-IsLossless two_events two_history "q-1" "c-2"
      (created ∷ []) created_quote added_event [] two_events-Represents Recorded-added
      replayed_created open_small create create_refused

-- The database has a third event.
abbrev ledger_of_three : Ledger
ledger_of_three = record (append_one plain_codec "q-1" "c-3" finalize ledger).1 { in_flight = 0 }

add_answer :
    (append_one plain_codec "q-1" "c-2" add_desk_again ledger_of_three).0
    ≡ ok (stored_event "q-1" 2 added_event ∷ [])
unfolding append_one append_guarded proto_command_to_domain db append_closure idempotency_lookup
    enter append_at find_key run_select read_rows order_by_seq where_rows insert_by_seq
    row_to_stored plain_codec payload try_i64 trim add_line_totals line_total_minor subtotal_minor
    tax_minor tax_rate_bps total_minor command_to_events has_line_id reduce require_non_blank
    events_after leave publish_head send_head domain_event_to_proto replay_stored_from
    replay_stored_to_state stored_event_to_domain_event_store append_command_events append_found
    encode_quote_event load_stored_events select_events append_rows column_as_u64 event_type_for
    insert_events insert_one read_next_seq coalesce_max_seq has_event_row has_key_row insert_event
    insert_key max_seq_above next_seq_of bytes_eq load_events_in_seq_range
    load_stored_events_between replay_command same_command_payloads same_payloads select_after
    select_seq_range
add_answer = refl

-- Subscribers know of a third event, and the second command is sent again: the head goes back to 2.
append_one-head_example :
    head_of (append_one plain_codec "q-1" "c-2" add_desk_again ledger_of_three).1.bus "q-1" ≡ some 2
append_one-head_example =
    append_one-head plain_codec "q-1" "c-2" add_desk_again ledger_of_three
      (stored_event "q-1" 2 added_event ∷ []) (stored_event "q-1" 2 added_event) "q-1" add_answer
      refl

unused_key : find_key two_events.keys "q-1" "c-3" ≡ none
unfolding find_key
unused_key = refl

second_desk_refused : command_to_events open_quote add_desk ≡ err duplicate_line_id
unfolding command_to_events require_non_blank trim has_line_id
second_desk_refused = refl

closure_accepted_example :
    (db' : Db) × Runs
      (append_closure plain_codec "q-1" "c-3" finalize_quote)
      two_events
      (ok (stored_event "q-1" 3 (wire_event finalize_quote) ∷ []))
      db'
    × IsSound plain_codec db'
        (extend two_history "q-1" (wire_event finalize_quote ∷ []))
        (extended_domain two_domain "q-1" finalize_quote)
    × Recorded db'
        (extend two_history "q-1" (wire_event finalize_quote ∷ []))
        "q-1"
        "c-3"
        (two_history "q-1")
        (wire_event finalize_quote ∷ [])
    × Grows two_events two_history db' (extend two_history "q-1" (wire_event finalize_quote ∷ []))
closure_accepted_example =
    closure_accepted plain_codec plain_codec-IsLossless two_events two_history two_domain "q-1"
      "c-3" finalize_quote two_events-IsSound open_quote unused_key open_quote_replayed
      open_quote-IsValid finalize_accepted (omega arith)
