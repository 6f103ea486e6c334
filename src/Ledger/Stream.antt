-- ===== src/Ledger/Stream.antt =====
-- The stream of `subscribe_quote` of src/ledger.rs: the subscriber's task as a state machine that
-- takes one turn at a time, so that whatever the other tasks do may happen between two turns. A
-- turn's Boolean tells whether the receiving end of the stream is still there when the turn sends.
pub mod World
pub mod Follows
pub mod Channels
pub mod Opened
pub mod Invariant
pub mod Turns
pub mod Reading
pub mod Promise
pub mod Schedule
pub mod Delivery
pub mod Reconnect
pub mod Settles
pub mod Noticed
pub mod CaughtUp
pub mod CommitAgain
pub mod InFlight
pub mod Drains
pub mod Lives
pub mod Restarts
pub mod Call
pub mod CallSoFar
pub mod CallRecords
pub mod CallAgain
use quote_ledger.Common.{
  ℕ, zero, suc, String, Bool, true, false, Option, none, some, List, [], ◌∷◌, last, length, Result,
  ok, err, ltb, str_eq, if◌then◌else◌,
}
use quote_ledger.Wire.{QuoteUpdate, snapshot, tail, StoredEvent, Status}
use quote_ledger.Store.Codec.{Codec}
use quote_ledger.Ledger.State.{
  Ledger, LedgerM, lift, ◌>>=◌, ◌>>◌, Metric, emit, db, Bus, Channel, send_head, head_of,
}
use quote_ledger.Ledger.Identifier.{validate_identifier}
use quote_ledger.Ledger.Subscribe.{Init, open_subscription}
use quote_ledger.Ledger.SubscribeLoad.{
  Waiting, wait, count, count_retry, attempt_load, last_or_internal, subscribe_db_max_attempts,
  subscribe_db_backoff_start_ms,
}

-- Where the call and the task it spawns are: before the read, after it, after the join, after the
-- catch-up, before a borrow of the head, at `changed()`, and in `subscribe_load_between` with the
-- attempts that are left and those that have been made.
pub data Phase : Type 0 where
  opening : Phase
  refused : Status → Phase
  opened joined caught : Init → Phase
  looking waiting : Phase
  reading : (head left attempt : ℕ) → Waiting → Option Status → Phase
  ended : Phase

-- `seen` is the number of sends that the receiver of the watch channel has seen; `sent` holds what
-- the stream has been sent, the latest first.
pub record Pump : Type 0 where
  pub phase : Phase
  pub watermark : ℕ
  pub seen : ℕ
  pub sent : List (Result QuoteUpdate Status)

abbrev pub new_pump : Pump
new_pump = record { phase = opening; watermark = 0; seen = 0; sent = [] }

-- The quote's channel; the empty one stands for a key that the map has not.
unfoldable pub channel_of : Bus → String → Channel
channel_of [] q = []
channel_of ((j, sent) ∷ bus) q = if str_eq j q then sent else channel_of bus q

-- `*rx_watch.borrow()`; there is a head from the join on.
abbrev pub borrow : Channel → ℕ
borrow [] = 0
borrow (head ∷ _) = head

abbrev pub at_phase : Phase → Pump → Pump
at_phase phase pump = record pump { phase = phase }

-- `if !push_update(&tx, update).await { return; }` and then the next phase.
abbrev pub push_then : Bool → QuoteUpdate → Phase → Pump → Pump
push_then true update phase pump = record pump { sent = ok update ∷ pump.sent; phase = phase }
push_then false update phase pump = at_phase ended pump

-- `let _ = tx.send(Err(status)).await;` and the end of the task.
abbrev pub push_error : Bool → Status → Pump → Pump
push_error true e pump = record pump { sent = err e ∷ pump.sent; phase = ended }
push_error false e pump = at_phase ended pump

-- `events.last().map(|e| e.seq).unwrap_or(from)`
abbrev pub seq_or : ℕ → Option StoredEvent → ℕ
seq_or from none = from
seq_or from (some e) = e.seq

abbrev pub tail_from : ℕ → List StoredEvent → QuoteUpdate
tail_from from events = tail from (seq_or from (last events)) events

-- `if !catchup.is_empty() { … }`
abbrev pub send_catchup : Bool → ℕ → Init → List StoredEvent → Pump → Pump
send_catchup there after init [] pump = at_phase (caught init) pump
send_catchup there after init (e ∷ events) pump =
    push_then there (tail_from after (e ∷ events)) (caught init) pump

abbrev pub send_snapshot : Bool → Init → Pump → Pump
send_snapshot there init pump =
    push_then there (snapshot init.last_seq init.view) looking
      (record pump { watermark = init.last_seq })

-- The test of the head against the watermark, and the call of `subscribe_load_between`.
abbrev pub look : ℕ → Pump → Pump
look head pump =
    if ltb pump.watermark head
    then at_phase
        (reading head subscribe_db_max_attempts 0
          (record { backoff_ms = subscribe_db_backoff_start_ms; slept = [] }) none)
        pump
    else at_phase waiting pump

-- `rx_watch.changed().await` returns when there is a send that has not been seen.
abbrev pub wake : Channel → Pump → Pump
wake sent pump =
    if ltb pump.seen (length sent)
    then record pump { seen = length sent; phase = looking }
    else pump

-- What follows a chunk.
abbrev pub deliver : Bool → ℕ → List StoredEvent → Pump → Pump
deliver there head [] pump = record pump { watermark = head; phase = waiting }
deliver there head (e ∷ chunk) pump =
    push_then there (tail_from pump.watermark (e ∷ chunk)) waiting
      (record pump { watermark = head })

-- One attempt's answer: the chunk, or one attempt less.
abbrev pub take_answer :
    (there : Bool) (head left attempt : ℕ)
    → Waiting
    → Pump
    → Result (List StoredEvent) Status × Ledger
    → Pump × Ledger
take_answer there head left attempt w pump (ok chunk, ledger) =
    (deliver there head chunk pump, ledger)
take_answer there head left attempt w pump (err e, ledger) = (
  at_phase (reading head left (suc attempt) (wait attempt w) (some e)) pump,
  count Metric.subscribe_db_load_failures ledger,
)

abbrev pub take_opening : Pump → Result Init Status × Ledger → Pump × Ledger
take_opening pump (ok init, ledger) = (at_phase (opened init) pump, ledger)
take_opening pump (err e, ledger) = (at_phase (refused e) pump, ledger)

module _ (codec : Codec) (quote_id : String) (after : ℕ) where
  -- What `subscribe_quote` does before it joins the bus.
  unfoldable pub open_read : LedgerM Init
  open_read = do
    lift (validate_identifier "quote_id" quote_id)
    emit Metric.subscribe_streams
    db (open_subscription codec quote_id after)

  -- `send_replace(last_seq)` and `subscribe()`, under the lock of the bus.
  unfoldable pub join_bus : Init → Pump → Ledger → Pump × Ledger
  join_bus init pump ledger =
      let bus = send_head ledger.bus quote_id init.last_seq in
      (
        record pump { phase = joined init; seen = length (channel_of bus quote_id) },
        record ledger { bus = bus },
      )

  unfoldable pub read_chunk :
      (there : Bool) (head left attempt : ℕ)
      → Waiting
      → Option Status
      → Pump
      → Ledger
      → Pump × Ledger
  read_chunk there head zero attempt w last_err pump ledger = (
    push_error there (last_or_internal last_err) pump,
    count Metric.subscribe_stream_terminal_errors ledger,
  )
  read_chunk there head (suc left) attempt w last_err pump ledger =
      take_answer there head left attempt w pump
        (attempt_load codec quote_id pump.watermark head (count_retry attempt ledger))

  unfoldable pub turn_at : Phase → Bool → Pump → Ledger → Pump × Ledger
  turn_at opening there pump ledger = take_opening pump (open_read ledger)
  turn_at (refused e) there pump ledger = (pump, ledger)
  turn_at (opened init) there pump ledger = join_bus init pump ledger
  turn_at (joined init) there pump ledger =
      (send_catchup there after init init.catchup pump, ledger)
  turn_at (caught init) there pump ledger = (send_snapshot there init pump, ledger)
  turn_at looking there pump ledger = (look (borrow (channel_of ledger.bus quote_id)) pump, ledger)
  turn_at waiting there pump ledger = (wake (channel_of ledger.bus quote_id) pump, ledger)
  turn_at (reading head left attempt w e) there pump ledger =
      read_chunk there head left attempt w e pump ledger
  turn_at ended there pump ledger = (pump, ledger)

  -- The subscriber's next turn.
  unfoldable pub take_turn : Bool → Pump → Ledger → Pump × Ledger
  take_turn there pump ledger = turn_at pump.phase there pump ledger
