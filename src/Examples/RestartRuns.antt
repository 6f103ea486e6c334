-- ===== src/Examples/RestartRuns.antt =====
-- Calls that are under way, the shutdown and restarts at the database of two events (src/ledger.rs,
-- src/main.rs).
use quote_ledger.Common.{
  ap, ℕ, zero, suc, ◌+◌, ◌*◌, ◌<◌, ◌≤◌, ◌≡◌, refl, true, some, List, [], ◌∷◌, ok, arith,
}
use quote_ledger.Shutdown.{Drain, complete, tick, shutdown_signal}
use quote_ledger.Ledger.Stream.World.{
  at_connection, arrive, World, subscribing, Move, commit, publish, open_other,
}
use quote_ledger.Ledger.Stream.Delivery.{Streams}
use quote_ledger.Ledger.Stream.Invariant.{InOrder}
use quote_ledger.Ledger.Stream.Reconnect.{position, Resumes}
use quote_ledger.Ledger.Stream.InFlight.{counts, appends, IsCounted, run-IsCounted}
use quote_ledger.Ledger.Stream.Drains.{
  world_at, counter, under_way, DrainsAt, shutdown_signal-drains, shutdown_signal_completes,
}
use quote_ledger.Ledger.Stream.Lives.{Life, lead, live, no_events}
use quote_ledger.Ledger.Stream.Restarts.{new_world, service_Streams, restart_Resumes}
use quote_ledger.Ledger.Stream.CommitAgain.{IsRepeated, commit_again}
use quote_ledger.Ledger.Stream.{take_turn, turn_at, open_read, join_bus, read_chunk}
use quote_ledger.Ledger.Stream.World.{committing, finish}
use quote_ledger.Mapping.{
  proto_command_to_domain, domain_event_to_proto, line_views, quote_state_to_view,
  replay_stored_from, replay_stored_to_state, stored_event_to_domain_event_store,
}
use quote_ledger.Ledger.State.{usize_max, db, enter, leave, publish_head, send_head}
use quote_ledger.Ledger.Closure.{append_closure, append_at, events_after}
use quote_ledger.Store.Append.{
  idempotency_lookup, load_stored_events, run_select, read_rows, append_command_events,
  append_found, append_rows, column_as_u64, encode_quote_event, event_type_for, insert_events,
  insert_one, load_stored_events_between, read_next_seq, row_to_stored,
}
use quote_ledger.Ledger.Identifier.{validate_identifier, all_identifier_chars}
use quote_ledger.Common.Text.{trim, len}
use quote_ledger.Ledger.Subscribe.{open_subscription, load_catchup, open_at, open_from}
use quote_ledger.Common.Int.{try_i64}
use quote_ledger.Domain.Money.{
  add_line_totals, line_total_minor, subtotal_minor, tax_minor, tax_rate_bps, total_minor,
}
use quote_ledger.Domain.Reducer.{command_to_events, has_line_id, reduce, require_non_blank}
use quote_ledger.Store.Tables.{
  coalesce_max_seq, find_key, has_event_row, has_key_row, insert_by_seq, insert_event, insert_key,
  max_seq_above, next_seq_of, order_by_seq, select_after, select_events, select_seq_range,
  where_rows,
}
use quote_ledger.Examples.PlainCodec.{payload}
use quote_ledger.Ledger.Stream.{channel_of}
use quote_ledger.Ledger.Stream.World.{step, run}
use quote_ledger.Examples.PlainCodec.{plain_codec, plain_codec-IsLossless}
use quote_ledger.Examples.Database.{two_history, two_domain, two_events-IsSound}
use quote_ledger.Examples.LedgerRuns.{ledger, finalize, finalized}
use quote_ledger.Examples.StreamRuns.{followed, quiet, one_head, room}

-- An append is in flight already.
run-IsCounted_example :
    IsCounted plain_codec "q-1" 1 1 (run plain_codec "q-1" 1 (subscribing ledger []) followed)
unfolding appends counts
run-IsCounted_example = run-IsCounted plain_codec "q-1" 1 1 followed (subscribing ledger []) refl

abbrev idle_world : World
idle_world = subscribing (record ledger { in_flight = 0 }) []

-- The signal comes while an append is between its commit and its send, and another waits for the
-- connection; both drop their guards before the third turn of the wait.
abbrev before_signal : List Move
before_signal = arrive ∷ arrive ∷ commit "q-1" "c-3" finalize ∷ []

abbrev busy_world : World
busy_world = run plain_codec "q-1" 1 idle_world before_signal

abbrev last_sends : ℕ → List Move
last_sends zero = commit "q-1" "c-4" finalize ∷ publish 0 ∷ []
last_sends (suc zero) = publish 0 ∷ publish 0 ∷ open_other "q-1" 0 ∷ []
last_sends (suc (suc i)) = []

abbrev every_tick : ℕ → ℕ
every_tick i = 7 + i * tick

busy_world-IsCounted : IsCounted plain_codec "q-1" 1 0 busy_world
unfolding appends counts
busy_world-IsCounted = run-IsCounted plain_codec "q-1" 1 0 before_signal idle_world refl

-- There are never more than two.
steady :
    (i : ℕ)
    → world_at plain_codec "q-1" 1 busy_world last_sends (suc (suc i))
      ≡ world_at plain_codec "q-1" 1 busy_world last_sends 2
unfolding world_at run
steady zero = refl
steady (suc i) = steady i

sent_by_two : under_way plain_codec "q-1" 1 busy_world last_sends 2 ≡ 0
unfolding run step take_turn turn_at committing at_connection proto_command_to_domain db
    append_closure idempotency_lookup enter open_read validate_identifier trim len
    all_identifier_chars open_subscription load_stored_events run_select read_rows try_i64
    add_line_totals line_total_minor subtotal_minor tax_minor tax_rate_bps total_minor
    command_to_events has_line_id reduce require_non_blank append_at events_after leave publish_head
    send_head finish channel_of join_bus read_chunk load_catchup open_at open_from
    domain_event_to_proto line_views quote_state_to_view replay_stored_from replay_stored_to_state
    stored_event_to_domain_event_store append_command_events append_found append_rows column_as_u64
    encode_quote_event event_type_for insert_events insert_one load_stored_events_between
    read_next_seq row_to_stored coalesce_max_seq find_key has_event_row has_key_row insert_by_seq
    insert_event insert_key max_seq_above next_seq_of order_by_seq select_after select_events
    select_seq_range where_rows plain_codec payload world_at appends
sent_by_two = refl

early_counts :
    (under_way plain_codec "q-1" 1 busy_world last_sends 0 ≡ 2)
    × (under_way plain_codec "q-1" 1 busy_world last_sends 1 ≡ 2)
unfolding run step take_turn turn_at committing at_connection proto_command_to_domain db
    append_closure idempotency_lookup enter open_read validate_identifier trim len
    all_identifier_chars open_subscription load_stored_events run_select read_rows try_i64
    add_line_totals line_total_minor subtotal_minor tax_minor tax_rate_bps total_minor
    command_to_events has_line_id reduce require_non_blank append_at events_after leave publish_head
    send_head finish channel_of join_bus read_chunk load_catchup open_at open_from
    domain_event_to_proto line_views quote_state_to_view replay_stored_from replay_stored_to_state
    stored_event_to_domain_event_store append_command_events append_found append_rows column_as_u64
    encode_quote_event event_type_for insert_events insert_one load_stored_events_between
    read_next_seq row_to_stored coalesce_max_seq find_key has_event_row has_key_row insert_by_seq
    insert_event insert_key max_seq_above next_seq_of order_by_seq select_after select_events
    select_seq_range where_rows plain_codec payload world_at appends
early_counts = (refl, refl)

busy_fits : (i : ℕ) → under_way plain_codec "q-1" 1 busy_world last_sends i ≤ usize_max
busy_fits zero = omega (arith, early_counts.0)
busy_fits (suc zero) = omega (arith, early_counts.1)
busy_fits (suc (suc i)) =
    let later = ap (λ world. appends world.pending) (steady i) in omega (arith, later, sent_by_two)

shutdown_signal-drains_example :
    (t : ℕ) × (outcome : Drain) × (t < 151)
    × DrainsAt plain_codec "q-1" 1 busy_world last_sends every_tick 7 t outcome
    × (shutdown_signal true (counter plain_codec "q-1" 1 busy_world last_sends) every_tick 7 151
        ≡ some (some (t, outcome)))
shutdown_signal-drains_example =
    shutdown_signal-drains plain_codec "q-1" 1 busy_world last_sends every_tick 7
      busy_world-IsCounted busy_fits (omega arith) (λ i. omega arith)

shutdown_signal_completes_example :
    (t : ℕ) × (t ≤ 2)
    × (under_way plain_codec "q-1" 1 busy_world last_sends t ≡ 0)
    × (shutdown_signal true (counter plain_codec "q-1" 1 busy_world last_sends) every_tick 7 151
        ≡ some (some (t, complete)))
shutdown_signal_completes_example =
    shutdown_signal_completes plain_codec "q-1" 1 busy_world last_sends every_tick 7
      busy_world-IsCounted busy_fits (omega arith) (λ i. omega arith) 2 sent_by_two (omega arith)

-- A run in which a subscriber joins, and one in which the engine fails at the first call.
abbrev pub later_lives : List Life
later_lives =
    record { faults = []; quote_id = "q-1"; after = 0; moves = quiet }
    ∷ record {
      faults = true ∷ [];
      quote_id = "q-1";
      after = 0;
      moves = commit "q-1" "c-4" finalize ∷ [];
    }
    ∷ []

abbrev following : Life
following = record { faults = []; quote_id = "q-1"; after = 1; moves = followed }

service_Streams_example :
    Streams plain_codec "q-1" 1 no_events
      (lead plain_codec (live plain_codec new_world later_lives) following)
service_Streams_example =
    service_Streams plain_codec plain_codec-IsLossless later_lives following (omega arith)

following-position :
    position (lead plain_codec (subscribing ledger []) following).pump.sent ≡ some 3
unfolding run step take_turn turn_at committing at_connection proto_command_to_domain db
    append_closure idempotency_lookup enter open_read validate_identifier trim len
    all_identifier_chars open_subscription load_stored_events run_select read_rows try_i64
    add_line_totals line_total_minor subtotal_minor tax_minor tax_rate_bps total_minor
    command_to_events has_line_id reduce require_non_blank append_at events_after leave publish_head
    send_head finish channel_of join_bus read_chunk load_catchup open_at open_from
    domain_event_to_proto line_views quote_state_to_view replay_stored_from replay_stored_to_state
    stored_event_to_domain_event_store append_command_events append_found append_rows column_as_u64
    encode_quote_event event_type_for insert_events insert_one load_stored_events_between
    read_next_seq row_to_stored coalesce_max_seq find_key has_event_row has_key_row insert_by_seq
    insert_event insert_key max_seq_above next_seq_of order_by_seq select_after select_events
    select_seq_range where_rows plain_codec payload
following-position = refl

restart_Resumes_example :
    Resumes plain_codec "q-1" 1 two_history (lead plain_codec (subscribing ledger []) following) (
      lead plain_codec
        (live plain_codec (lead plain_codec (subscribing ledger []) following) later_lives)
        (record { faults = []; quote_id = "q-1"; after = 3; moves = quiet }))
restart_Resumes_example =
    restart_Resumes plain_codec plain_codec-IsLossless following later_lives 3 [] quiet
      (subscribing ledger []) two_history two_domain two_events-IsSound (room 21 (omega arith))
      following-position

committed_finalize :
    (committing plain_codec "q-1" "c-3" finalize (at_connection [] ledger)).0 ≡ ok (finalized ∷ [])
unfolding run step take_turn turn_at committing at_connection proto_command_to_domain db
    append_closure idempotency_lookup enter open_read validate_identifier trim len
    all_identifier_chars open_subscription load_stored_events run_select read_rows try_i64
    add_line_totals line_total_minor subtotal_minor tax_minor tax_rate_bps total_minor
    command_to_events has_line_id reduce require_non_blank append_at events_after leave publish_head
    send_head finish channel_of join_bus read_chunk load_catchup open_at open_from
    domain_event_to_proto line_views quote_state_to_view replay_stored_from replay_stored_to_state
    stored_event_to_domain_event_store append_command_events append_found append_rows column_as_u64
    encode_quote_event event_type_for insert_events insert_one load_stored_events_between
    read_next_seq row_to_stored coalesce_max_seq find_key has_event_row has_key_row insert_by_seq
    insert_event insert_key max_seq_above next_seq_of order_by_seq select_after select_events
    select_seq_range where_rows plain_codec payload
committed_finalize = refl

pub subscribing-InOrder : InOrder "q-1" 1 two_history (subscribing ledger [])
subscribing-InOrder = record { heads = one_head; pending = tt; pump = refl }

-- The process stops before the head is sent.
commit_again_example :
    IsRepeated plain_codec "q-1" "c-3" finalize
      (finalized ∷ [])
      (live plain_codec
        (run plain_codec "q-1" 1
          (step plain_codec "q-1" 1 (subscribing ledger []) (commit "q-1" "c-3" finalize))
          quiet)
        later_lives).ledger
commit_again_example =
    commit_again plain_codec plain_codec-IsLossless "q-1" "c-3" finalize "q-1" 1
      (subscribing ledger []) two_history two_domain (finalized ∷ []) quiet later_lives
      two_events-IsSound (room 12 (omega arith)) subscribing-InOrder committed_finalize
