-- ===== src/Examples/CallRuns.antt =====
-- A stream of commands in the middle of other calls, at the database of two events (src/ledger.rs).
use quote_ledger.Common.{◌≡◌, refl, List, [], ◌∷◌, ok, arith}
use quote_ledger.Ledger.Outcome.{Moves}
use quote_ledger.Ledger.Stream.World.{at_connection, commit, publish, subscribing}
use quote_ledger.Ledger.Stream.Lives.{live}
use quote_ledger.Ledger.Stream.Call.{
  CallMove, advance, other, new_call, finished, call_run, call_step,
}
use quote_ledger.Ledger.Stream.CallSoFar.{IsBacked}
use quote_ledger.Ledger.Stream.CallAgain.{IsAnsweredAgain, call_records, call_again}
use quote_ledger.Ledger.AppendOne.{append_one}
use quote_ledger.Ledger.AppendCommands.{
  append_commands, handle_frames, handle_frame, handle_message, check_message, count_command,
  stream_quote, respond,
}
use quote_ledger.Examples.PlainCodec.{payload}
use quote_ledger.Mapping.{
  replay_stored_from, replay_stored_to_state, stored_event_to_domain_event_store,
}
use quote_ledger.Domain.Reducer.{has_line_id, require_non_blank}
use quote_ledger.Domain.Money.{
  add_line_totals, line_total_minor, subtotal_minor, tax_minor, tax_rate_bps, total_minor,
}
use quote_ledger.Common.Text.{trim}
use quote_ledger.Common.Int.{try_i64}
use quote_ledger.Store.Tables.{
  select_events, order_by_seq, where_rows, insert_by_seq, coalesce_max_seq, has_event_row,
  has_key_row, insert_event, insert_key, max_seq_above, next_seq_of, select_after, select_seq_range,
}
use quote_ledger.Store.Append.{
  idempotency_lookup, load_stored_events, run_select, read_rows, row_to_stored,
  append_command_events, append_found, append_rows, bytes_eq, column_as_u64, encode_quote_event,
  event_type_for, insert_events, insert_one, load_events_in_seq_range, load_stored_events_between,
  read_next_seq, replay_command, same_command_payloads, same_payloads,
}
use quote_ledger.Ledger.Closure.{append_at, events_after}
use quote_ledger.Ledger.State.{db, enter, leave, publish_head}
use quote_ledger.Ledger.AppendOne.{append_guarded}
use quote_ledger.Domain.Reducer.{command_to_events, reduce}
use quote_ledger.Mapping.{domain_event_to_proto, proto_command_to_domain}
use quote_ledger.Store.Tables.{find_key}
use quote_ledger.Ledger.State.{send_head}
use quote_ledger.Ledger.Closure.{append_closure}
use quote_ledger.Ledger.Identifier.{validate_identifier, all_identifier_chars}
use quote_ledger.Common.Text.{len}
use quote_ledger.Ledger.Stream.{take_turn, turn_at, open_read, join_bus, read_chunk}
use quote_ledger.Ledger.Stream.World.{committing, finish}
use quote_ledger.Mapping.{line_views, quote_state_to_view}
use quote_ledger.Ledger.Subscribe.{open_subscription, load_catchup, open_at, open_from}
use quote_ledger.Ledger.Stream.{channel_of}
use quote_ledger.Ledger.Stream.World.{step, run}
use quote_ledger.Examples.PlainCodec.{plain_codec, plain_codec-IsLossless}
use quote_ledger.Examples.Database.{two_events, two_history, two_domain, two_events-IsSound}
use quote_ledger.Examples.LedgerRuns.{ledger, finalize}
use quote_ledger.Examples.StreamRuns.{room}
use quote_ledger.Examples.AppendRuns.{two_frames, two_stored}
use quote_ledger.Examples.RestartRuns.{later_lives, subscribing-InOrder}

-- Another client finalizes the quote, under the same key, between the two commands of the stream.
abbrev crossed : List CallMove
crossed =
    advance
    ∷ other (commit "q-1" "c-3" finalize)
    ∷ advance
    ∷ other (publish 0)
    ∷ advance
    ∷ advance
    ∷ advance
    ∷ []

crossed_answer :
    (call_run plain_codec 2 "q-1" 1 (subscribing ledger [], new_call two_frames) crossed).1.phase
    ≡ finished (ok two_stored)
unfolding append_one append_guarded proto_command_to_domain db append_closure idempotency_lookup
    enter append_at find_key run_select read_rows order_by_seq where_rows insert_by_seq
    row_to_stored plain_codec payload try_i64 trim add_line_totals line_total_minor subtotal_minor
    tax_minor tax_rate_bps total_minor command_to_events has_line_id reduce require_non_blank
    events_after leave publish_head send_head domain_event_to_proto replay_stored_from
    replay_stored_to_state stored_event_to_domain_event_store append_command_events append_found
    encode_quote_event load_stored_events select_events append_rows column_as_u64 event_type_for
    insert_events insert_one read_next_seq coalesce_max_seq has_event_row has_key_row insert_event
    insert_key max_seq_above next_seq_of bytes_eq load_events_in_seq_range
    load_stored_events_between replay_command same_command_payloads same_payloads select_after
    select_seq_range append_commands handle_frames handle_frame handle_message check_message
    count_command stream_quote respond validate_identifier len all_identifier_chars run step
    take_turn turn_at committing at_connection open_read open_subscription finish channel_of
    join_bus read_chunk load_catchup open_at open_from line_views quote_state_to_view call_run
    call_step
crossed_answer = refl

call_records_example :
    (m : Moves plain_codec two_events two_history 7
      (call_run plain_codec 2 "q-1" 1
        (subscribing ledger [], new_call two_frames)
        crossed).0.ledger.conn.db)
    × IsBacked
        (call_run plain_codec 2 "q-1" 1
          (subscribing ledger [], new_call two_frames)
          crossed).0.ledger.conn.db
        m.h'
        two_frames
        2
        two_stored
call_records_example =
    call_records plain_codec plain_codec-IsLossless 2 "q-1" 1 two_frames (subscribing ledger [])
      two_history two_domain crossed two_stored two_events-IsSound subscribing-InOrder
      (room 7 (omega arith)) crossed_answer

call_again_example :
    IsAnsweredAgain plain_codec 2 two_frames two_stored
      (live plain_codec
        (call_run plain_codec 2 "q-1" 1 (subscribing ledger [], new_call two_frames) crossed).0
        later_lives).ledger
call_again_example =
    call_again plain_codec plain_codec-IsLossless 2 "q-1" 1 two_frames (subscribing ledger [])
      two_history two_domain crossed two_stored two_events-IsSound subscribing-InOrder later_lives
      (room 13 (omega arith)) crossed_answer
