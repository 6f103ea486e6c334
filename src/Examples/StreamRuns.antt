-- ===== src/Examples/StreamRuns.antt =====
-- Schedules of the ledger of two events with a subscriber (src/ledger.rs).
use quote_ledger.Ledger.Stream.{take_turn, turn_at, open_read, join_bus, read_chunk}
use quote_ledger.Ledger.Stream.World.{at_connection, committing, finish}
use quote_ledger.Mapping.{
  proto_command_to_domain, domain_event_to_proto, line_views, quote_state_to_view,
  replay_stored_from, replay_stored_to_state, stored_event_to_domain_event_store,
}
use quote_ledger.Ledger.State.{db, enter, leave, publish_head, send_head}
use quote_ledger.Ledger.Closure.{append_closure, append_at, events_after}
use quote_ledger.Store.Append.{
  idempotency_lookup, load_stored_events, run_select, read_rows, append_command_events,
  append_found, append_rows, column_as_u64, encode_quote_event, event_type_for, insert_events,
  insert_one, load_stored_events_between, read_next_seq, row_to_stored,
}
use quote_ledger.Ledger.Identifier.{validate_identifier, all_identifier_chars}
use quote_ledger.Common.Text.{trim, len}
use quote_ledger.Ledger.Subscribe.{open_subscription, load_catchup, open_at, open_from}
use quote_ledger.Common.Int.{try_i64}
use quote_ledger.Domain.Money.{
  add_line_totals, line_total_minor, subtotal_minor, tax_minor, tax_rate_bps, total_minor,
}
use quote_ledger.Domain.Reducer.{command_to_events, has_line_id, reduce, require_non_blank}
use quote_ledger.Store.Tables.{
  coalesce_max_seq, find_key, has_event_row, has_key_row, insert_by_seq, insert_event, insert_key,
  max_seq_above, next_seq_of, order_by_seq, select_after, select_events, select_seq_range,
  where_rows,
}
use quote_ledger.Examples.PlainCodec.{plain_codec, payload}
use quote_ledger.Common.{
  some, ◌≡◌, refl, sym, ap, ◌∙◌, true, ℕ, ◌≤◌, ◌<◌, List, [], ◌∷◌, length, arith, Bool-cases, inl,
  inr, str_eq,
}
use quote_ledger.Ledger.Safe.{HasRoom}
use quote_ledger.Ledger.Sound.{IsSound, DomainHistory}
use quote_ledger.Store.History.{History, Extends}
use quote_ledger.Examples.Database.{two_history, two_domain, two_events-IsSound}
use quote_ledger.Ledger.Stream.{waiting, channel_of, borrow}
use quote_ledger.Ledger.Stream.World.{World, subscribing, Move, commit, publish, turn, step, run}
use quote_ledger.Ledger.Stream.Follows.{live, Delivered, events_of}
use quote_ledger.Ledger.Stream.Invariant.{HeadsOk}
use quote_ledger.Ledger.Stream.Delivery.{Streams, run-Streams, run-caught_up}
use quote_ledger.Ledger.Stream.Reconnect.{position}
use quote_ledger.Ledger.Stream.Settles.{SettlesIn, waiting-SettlesIn}
use quote_ledger.Examples.PlainCodec.{plain_codec, plain_codec-IsLossless}
use quote_ledger.Examples.LedgerRuns.{ledger, finalize}

-- The subscriber, for seq 1, joins and catches up; the quote is finalized; the subscriber follows.
abbrev pub followed : List Move
followed =
    turn true
    ∷ turn true
    ∷ turn true
    ∷ turn true
    ∷ turn true
    ∷ commit "q-1" "c-3" finalize
    ∷ publish 0
    ∷ turn true
    ∷ turn true
    ∷ turn true
    ∷ []

-- The quote is finalized, and its head sent, between the subscriber's read and its join.
abbrev overtaken : List Move
overtaken =
    turn true
    ∷ commit "q-1" "c-3" finalize
    ∷ publish 0
    ∷ turn true
    ∷ turn true
    ∷ turn true
    ∷ turn true
    ∷ []

-- A subscriber joins, and nothing else moves.
abbrev pub quiet : List Move
quiet = turn true ∷ turn true ∷ turn true ∷ turn true ∷ turn true ∷ []

-- The subscriber waits when the quote is finalized.
abbrev woken : List Move
woken =
    turn true
    ∷ turn true
    ∷ turn true
    ∷ turn true
    ∷ turn true
    ∷ commit "q-1" "c-3" finalize
    ∷ publish 0
    ∷ []

abbrev followed_world : World
followed_world = run plain_codec "q-1" 1 (subscribing ledger []) followed

abbrev overtaken_world : World
overtaken_world = run plain_codec "q-1" 1 (subscribing ledger []) overtaken

abbrev woken_world : World
woken_world = run plain_codec "q-1" 1 (subscribing ledger []) woken

-- The subscriber has the third event in the first schedule. In the second it waits for a head past
-- 2, and has seen every send, with three events in the database. In the third it has yet to wake.
schedules_run :
    (followed_world.pump.phase ≡ waiting)
    × (followed_world.pump.seen ≡ 3)
    × (channel_of followed_world.ledger.bus "q-1" ≡ 3 ∷ 2 ∷ 2 ∷ [])
    × (length (events_of followed_world.pump.sent) ≡ 2)
    × (overtaken_world.pump.phase ≡ waiting)
    × (overtaken_world.pump.seen ≡ 3)
    × (overtaken_world.pump.watermark ≡ 2)
    × (channel_of overtaken_world.ledger.bus "q-1" ≡ 2 ∷ 3 ∷ 2 ∷ [])
    × (length overtaken_world.ledger.conn.db.events ≡ 3)
    × (woken_world.pump.phase ≡ waiting)
    × (woken_world.pump.seen ≡ 2)
    × (channel_of woken_world.ledger.bus "q-1" ≡ 3 ∷ 2 ∷ 2 ∷ [])
unfolding run step take_turn turn_at committing at_connection proto_command_to_domain db
    append_closure idempotency_lookup enter open_read validate_identifier trim len
    all_identifier_chars open_subscription load_stored_events run_select read_rows try_i64
    add_line_totals line_total_minor subtotal_minor tax_minor tax_rate_bps total_minor
    command_to_events has_line_id reduce require_non_blank append_at events_after leave publish_head
    send_head finish channel_of join_bus read_chunk load_catchup open_at open_from
    domain_event_to_proto line_views quote_state_to_view replay_stored_from replay_stored_to_state
    stored_event_to_domain_event_store append_command_events append_found append_rows column_as_u64
    encode_quote_event event_type_for insert_events insert_one load_stored_events_between
    read_next_seq row_to_stored coalesce_max_seq find_key has_event_row has_key_row insert_by_seq
    insert_event insert_key max_seq_above next_seq_of order_by_seq select_after select_events
    select_seq_range where_rows plain_codec payload
schedules_run = (refl, refl, refl, refl, refl, refl, refl, refl, refl, refl, refl, refl)

followed_all_seen : followed_world.pump.seen ≡ length (channel_of followed_world.ledger.bus "q-1")
followed_all_seen = schedules_run.1 ∙ sym (ap length schedules_run.2)

woken_unseen : woken_world.pump.seen < length (channel_of woken_world.ledger.bus "q-1")
woken_unseen = rw (schedules_run.10, schedules_run.11) (omega arith)

pub one_head : HeadsOk two_history ledger.bus
unfolding channel_of
one_head q = elim (Bool-cases (str_eq "q-1" q)) [
  | inl same ↦ rw same (omega arith)
  | inr other ↦ rw other (omega arith)
]

pub room : (n : ℕ) → n ≤ 100 → HasRoom two_history n
room n few q = elim (Bool-cases (str_eq "q-1" q)) [
  | inl same ↦ rw same (omega (arith, few))
  | inr other ↦ rw other (omega (arith, few))
]

run-Streams_example : Streams plain_codec "q-1" 1 two_history followed_world
run-Streams_example =
    run-Streams plain_codec plain_codec-IsLossless "q-1" 1 ledger [] two_history two_domain followed
      two_events-IsSound one_head tt (room 10 (omega arith))

run-caught_up_example :
    (h' : History) × (d' : DomainHistory) × IsSound plain_codec followed_world.ledger.conn.db h' d'
    × Extends two_history h'
    × Delivered "q-1" (h' "q-1") 1 live followed_world.pump.sent followed_world.pump.watermark
    × (borrow (channel_of followed_world.ledger.bus "q-1") ≤ followed_world.pump.watermark)
run-caught_up_example =
    run-caught_up plain_codec plain_codec-IsLossless "q-1" 1 ledger [] two_history two_domain
      followed two_events-IsSound one_head tt (room 10 (omega arith)) schedules_run.0
      followed_all_seen

waiting-SettlesIn_example :
    SettlesIn plain_codec "q-1" 1 11 (borrow (channel_of woken_world.ledger.bus "q-1")) woken_world
waiting-SettlesIn_example =
    waiting-SettlesIn plain_codec "q-1" 1 woken_world schedules_run.9 woken_unseen

followed_position : position followed_world.pump.sent ≡ some 3
unfolding run step take_turn turn_at committing at_connection proto_command_to_domain db
    append_closure idempotency_lookup enter open_read validate_identifier trim len
    all_identifier_chars open_subscription load_stored_events run_select read_rows try_i64
    add_line_totals line_total_minor subtotal_minor tax_minor tax_rate_bps total_minor
    command_to_events has_line_id reduce require_non_blank append_at events_after leave publish_head
    send_head finish channel_of join_bus read_chunk load_catchup open_at open_from
    domain_event_to_proto line_views quote_state_to_view replay_stored_from replay_stored_to_state
    stored_event_to_domain_event_store append_command_events append_found append_rows column_as_u64
    encode_quote_event event_type_for insert_events insert_one load_stored_events_between
    read_next_seq row_to_stored coalesce_max_seq find_key has_event_row has_key_row insert_by_seq
    insert_event insert_key max_seq_above next_seq_of order_by_seq select_after select_events
    select_seq_range where_rows plain_codec payload
followed_position = refl
