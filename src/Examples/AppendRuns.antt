-- ===== src/Examples/AppendRuns.antt =====
-- Streams of commands to the ledger of two events (src/ledger.rs).
use quote_ledger.Common.{ap, ◌≡◌, ◌↔◌, refl, some, List, [], ◌∷◌, ◌++◌, ok, err, arith}
use quote_ledger.Wire.{AppendCommandRequest, AppendCommandsResponse, Code, Message}
use quote_ledger.Mapping.{status}
use quote_ledger.Mapping.RoundTrip.{stored_event}
use quote_ledger.Ledger.AppendOne.{append_one}
use quote_ledger.Ledger.AppendCommands.{
  Frame, message, idle_timeout, append_commands, handle_frames, handle_frame, handle_message,
  check_message, count_command, stream_quote, respond,
}
use quote_ledger.Ledger.Service.{new_service, in_flight_appends, serve_append_commands}
use quote_ledger.Ledger.AppendCommands.Answer.{IsServed, append_commands_answers}
use quote_ledger.Ledger.AppendCommands.Halts.{stops}
use quote_ledger.Ledger.AppendCommands.Stops.{over_cap, timed_out, noted, append_commands_stops}
use quote_ledger.Ledger.State.{Ledger}
use quote_ledger.Ledger.AppendCommands.Resumed.{SplitAt, append_commands_resumes}
use quote_ledger.Examples.PlainCodec.{payload}
use quote_ledger.Mapping.{
  replay_stored_from, replay_stored_to_state, stored_event_to_domain_event_store,
}
use quote_ledger.Domain.Reducer.{has_line_id, require_non_blank}
use quote_ledger.Domain.Money.{
  add_line_totals, line_total_minor, subtotal_minor, tax_minor, tax_rate_bps, total_minor,
}
use quote_ledger.Common.Text.{trim}
use quote_ledger.Common.Int.{try_i64}
use quote_ledger.Store.Tables.{
  select_events, order_by_seq, where_rows, insert_by_seq, coalesce_max_seq, has_event_row,
  has_key_row, insert_event, insert_key, max_seq_above, next_seq_of, select_after, select_seq_range,
}
use quote_ledger.Store.Append.{
  idempotency_lookup, load_stored_events, run_select, read_rows, row_to_stored,
  append_command_events, append_found, append_rows, bytes_eq, column_as_u64, encode_quote_event,
  event_type_for, insert_events, insert_one, load_events_in_seq_range, load_stored_events_between,
  read_next_seq, replay_command, same_command_payloads, same_payloads,
}
use quote_ledger.Ledger.Closure.{append_at, events_after}
use quote_ledger.Ledger.State.{db, enter, leave, publish_head}
use quote_ledger.Ledger.AppendOne.{append_guarded}
use quote_ledger.Domain.Reducer.{command_to_events, reduce}
use quote_ledger.Mapping.{domain_event_to_proto, proto_command_to_domain}
use quote_ledger.Store.Tables.{find_key}
use quote_ledger.Ledger.State.{send_head}
use quote_ledger.Ledger.Closure.{append_closure}
use quote_ledger.Ledger.Identifier.{validate_identifier, all_identifier_chars}
use quote_ledger.Common.Text.{len}
use quote_ledger.Examples.PlainCodec.{plain_codec, plain_codec-IsLossless}
use quote_ledger.Examples.Database.{
  two_history, two_domain, two_history_small, two_events-IsSound, added_event,
}
use quote_ledger.Examples.LedgerRuns.{ledger, finalize, finalized, add_desk_again}

-- The line that is there already, sent again, and the end of the quote.
abbrev desk_again : AppendCommandRequest
desk_again = record { client_command_id = "c-2"; quote_id = "q-1"; command = some add_desk_again }

abbrev last_command : AppendCommandRequest
last_command = record { client_command_id = "c-3"; quote_id = "q-1"; command = some finalize }

abbrev pub two_frames : List Frame
two_frames = message desk_again ∷ message last_command ∷ []

abbrev pub two_stored : AppendCommandsResponse
two_stored = record {
  last_committed_seq = 3;
  committed = stored_event "q-1" 2 added_event ∷ finalized ∷ [];
}

abbrev ended_stream : List Frame
ended_stream = message desk_again ∷ idle_timeout ∷ []

two_answer : (append_commands plain_codec 2 two_frames ledger).0 ≡ ok two_stored
unfolding append_one append_guarded proto_command_to_domain db append_closure idempotency_lookup
    enter append_at find_key run_select read_rows order_by_seq where_rows insert_by_seq
    row_to_stored plain_codec payload try_i64 trim add_line_totals line_total_minor subtotal_minor
    tax_minor tax_rate_bps total_minor command_to_events has_line_id reduce require_non_blank
    events_after leave publish_head send_head domain_event_to_proto replay_stored_from
    replay_stored_to_state stored_event_to_domain_event_store append_command_events append_found
    encode_quote_event load_stored_events select_events append_rows column_as_u64 event_type_for
    insert_events insert_one read_next_seq coalesce_max_seq has_event_row has_key_row insert_event
    insert_key max_seq_above next_seq_of bytes_eq load_events_in_seq_range
    load_stored_events_between replay_command same_command_payloads same_payloads select_after
    select_seq_range append_commands handle_frames handle_frame handle_message check_message
    count_command stream_quote respond validate_identifier len all_identifier_chars
two_answer = refl

-- A service that is made with the default limits.
served_by_default :
    ((serve_append_commands plain_codec two_frames (new_service ledger.conn)).0 ≡ ok two_stored)
    × (in_flight_appends (serve_append_commands plain_codec two_frames (new_service ledger.conn)).1
        ≡ 0)
unfolding append_one append_guarded proto_command_to_domain db append_closure idempotency_lookup
    enter append_at find_key run_select read_rows order_by_seq where_rows insert_by_seq
    row_to_stored plain_codec payload try_i64 trim add_line_totals line_total_minor subtotal_minor
    tax_minor tax_rate_bps total_minor command_to_events has_line_id reduce require_non_blank
    events_after leave publish_head send_head domain_event_to_proto replay_stored_from
    replay_stored_to_state stored_event_to_domain_event_store append_command_events append_found
    encode_quote_event load_stored_events select_events append_rows column_as_u64 event_type_for
    insert_events insert_one read_next_seq coalesce_max_seq has_event_row has_key_row insert_event
    insert_key max_seq_above next_seq_of bytes_eq load_events_in_seq_range
    load_stored_events_between replay_command same_command_payloads same_payloads select_after
    select_seq_range append_commands handle_frames handle_frame handle_message check_message
    count_command stream_quote respond validate_identifier len all_identifier_chars
served_by_default = (refl, refl)

append_commands_answers_example :
    (append_commands plain_codec 2 two_frames ledger
      ≡ (ok two_stored, (append_commands plain_codec 2 two_frames ledger).1))
    ↔ IsServed plain_codec 2 two_frames ledger two_stored
        (append_commands plain_codec 2 two_frames ledger).1
append_commands_answers_example =
    append_commands_answers plain_codec 2 two_frames ledger two_stored
      (append_commands plain_codec 2 two_frames ledger).1

two_served :
    IsServed plain_codec 2 two_frames ledger two_stored
      (append_commands plain_codec 2 two_frames ledger).1
two_served =
    (append_commands_answers plain_codec 2 two_frames ledger two_stored
        (append_commands plain_codec 2 two_frames ledger).1).0
      (ap (λ r. (r, (append_commands plain_codec 2 two_frames ledger).1)) two_answer)

-- A third command is one too many.
append_commands_stops_example :
    append_commands plain_codec 2 (two_frames ++ message desk_again ∷ []) ledger ≡ (
      err (
          status Code.resource_exhausted
            (Message.numbered "append_commands stream exceeds max " 2 " commands")),
      noted "too_many" two_served.after,
    )
append_commands_stops_example =
    append_commands_stops plain_codec 2 two_served.q two_frames two_stored.committed ledger
      two_served.after (message desk_again) [] _ _ two_served.served (omega arith)
      (over_cap desk_again refl)

resent_answer :
    (append_commands plain_codec 2
      (two_frames ++ [])
      (append_commands plain_codec 2 (two_frames ++ idle_timeout ∷ []) ledger).1).0
    ≡ ok two_stored
unfolding append_one append_guarded proto_command_to_domain db append_closure idempotency_lookup
    enter append_at find_key run_select read_rows order_by_seq where_rows insert_by_seq
    row_to_stored plain_codec payload try_i64 trim add_line_totals line_total_minor subtotal_minor
    tax_minor tax_rate_bps total_minor command_to_events has_line_id reduce require_non_blank
    events_after leave publish_head send_head domain_event_to_proto replay_stored_from
    replay_stored_to_state stored_event_to_domain_event_store append_command_events append_found
    encode_quote_event load_stored_events select_events append_rows column_as_u64 event_type_for
    insert_events insert_one read_next_seq coalesce_max_seq has_event_row has_key_row insert_event
    insert_key max_seq_above next_seq_of bytes_eq load_events_in_seq_range
    load_stored_events_between replay_command same_command_payloads same_payloads select_after
    select_seq_range append_commands handle_frames handle_frame handle_message check_message
    count_command stream_quote respond validate_identifier len all_identifier_chars
resent_answer = refl

append_commands_resumes_example :
    (last : Ledger) × SplitAt plain_codec plain_codec-IsLossless two_served.q two_stored.committed
      []
      (append_commands plain_codec 2 (two_frames ++ idle_timeout ∷ []) ledger).1
      two_stored.committed
      last
append_commands_resumes_example =
    append_commands_resumes plain_codec plain_codec-IsLossless 2 two_served.q two_frames
      two_stored.committed ledger two_served.after idle_timeout [] _ _ two_history two_domain []
      two_stored two_events-IsSound (λ q. two_history_small q 2 (omega arith)) (omega arith)
      two_served.served (omega arith) (stops timed_out) resent_answer
