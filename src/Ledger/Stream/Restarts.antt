-- ===== src/Ledger/Stream/Restarts.antt =====
-- What holds of the service of src/ledger.rs over any number of restarts.
use quote_ledger.Common.{[], ℕ, suc, ◌+◌, ◌<◌, ◌≡◌, String, Bool, some, List, length, arith}
use quote_ledger.Common.Int.{i64_limit}
use quote_ledger.Store.Codec.{Codec, IsLossless}
use quote_ledger.Store.History.{History}
use quote_ledger.Ledger.Service.{new_inner}
use quote_ledger.Ledger.Sound.{DomainHistory, IsSound}
use quote_ledger.Ledger.Safe.{HasRoom}
use quote_ledger.Ledger.Stream.World.{World, subscribing, Move}
use quote_ledger.Ledger.Stream.Delivery.{Streams, phase-IsStream}
use quote_ledger.Ledger.Stream.Schedule.{WorldMoves}
use quote_ledger.Ledger.Stream.Reconnect.{position, Resumes, Extends-trans, resume}
use quote_ledger.Ledger.Stream.Lives.{
  Life, lead, live, all_moves, empty_db, no_events, no_domain_events, empty_db-IsSound,
  lead-WorldMoves, live-Moves,
}

-- The service on a new database.
abbrev pub new_world : World
new_world = subscribing (new_inner (record { db = empty_db; faults = [] })) []

module _ (codec : Codec) (lossless : IsLossless codec) where
  moved-Streams :
      (q : String) (after n : ℕ) (world last : World) (h : History)
      → WorldMoves codec lossless q after world.ledger.conn.db h n last
      → Streams codec q after h last
  moved-Streams q after n world last h m = record {
    h' = m.moves.h';
    d' = m.moves.d';
    sound = m.moves.sound;
    longer = m.moves.grows.longer;
    heads = m.in_order.heads;
    stream = phase-IsStream q (m.moves.h' q) after _ _ _ m.in_order.pump;
  }

  -- After other runs of the process, the last one's streams follow what those before it have stored.
  last-Streams :
      (lives : List Life) (life : Life) (world : World) (h : History) (d : DomainHistory)
      → IsSound codec world.ledger.conn.db h d
      → HasRoom h (all_moves lives + length life.moves)
      → Streams codec life.quote_id life.after h (lead codec (live codec world lives) life)
  last-Streams lives life world h d sound room =
      let before = live-Moves codec lossless lives world h d sound (λ j. omega (arith, room j)) in
      let here = live codec world lives in
      let s =
        moved-Streams life.quote_id life.after (length life.moves) here (lead codec here life)
          before.h'
          (lead-WorldMoves codec lossless life here before.h' before.d' before.sound
            (λ j. omega (arith, room j, before.few j))) in
      record {
        h' = s.h';
        d' = s.d';
        sound = s.sound;
        longer = λ j. Extends-trans _ _ _ before.grows.longer s.longer j;
        heads = s.heads;
        stream = s.stream;
      }

  -- With a lossless encoding of events: on a database that the migration has just made, over any
  -- number of runs of the process with fewer than 2^63 - 1 moves in all, each stopped at any point
  -- and each with any schedule of appends, subscriptions, sends and turns and any failures of the
  -- engine: every quote's rows are at the end a history without a gap that replays to a valid
  -- quote, every key names a stretch of one, no head on the bus is past its quote's history, and
  -- what a subscriber of the last run has been sent follows that history from its seq on without a
  -- gap or a repetition.
  pub service_Streams :
      (lives : List Life) (life : Life)
      → suc (all_moves lives + length life.moves) < i64_limit
      → Streams codec life.quote_id life.after no_events
          (lead codec (live codec new_world lives) life)
  service_Streams lives life few =
      last-Streams lives life new_world no_events no_domain_events (empty_db-IsSound codec)
        (λ j. omega (arith, few))

  -- With a lossless encoding of events: when a client has followed a quote in a run of the process
  -- under any schedule from a sound database with room for the events to come, and after that run
  -- has stopped anywhere and any other runs have come and gone, subscribes again with the seq of
  -- the last tail or snapshot it has been sent, the tails of both streams together carry exactly
  -- the events of a stretch of the quote's history from the first subscription's seq on, each
  -- once, in order and under its seq; the database is sound afterwards.
  pub restart_Resumes :
      (life : Life) (lives : List Life) (p : ℕ) (faults : List Bool) (later : List Move)
      (world : World) (h : History) (d : DomainHistory)
      → IsSound codec world.ledger.conn.db h d
      → HasRoom h (length life.moves + (all_moves lives + length later))
      → position (lead codec world life).pump.sent ≡ some p
      → Resumes codec life.quote_id life.after h (lead codec world life) (
          lead codec
            (live codec (lead codec world life) lives)
            (record { faults = faults; quote_id = life.quote_id; after = p; moves = later }))
  restart_Resumes life lives p faults later world h d sound room at =
      let first = lead codec world life in
      let one = lead-WorldMoves codec lossless life world h d sound (λ j. omega (arith, room j)) in
      let again : Life = record {
        faults = faults;
        quote_id = life.quote_id;
        after = p;
        moves = later;
      } in
      resume codec life.quote_id life.after p h one.moves.h' first
        (lead codec (live codec first lives) again) one.moves.grows.longer
        (phase-IsStream life.quote_id (one.moves.h' life.quote_id) life.after _ _ _
          one.in_order.pump)
        at
        (last-Streams lives again first one.moves.h' one.moves.d' one.moves.sound
          (λ j. omega (arith, room j, one.moves.few j)))
