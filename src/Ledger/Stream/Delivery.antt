-- ===== src/Ledger/Stream/Delivery.antt =====
-- What a subscriber has been sent, whatever the other calls do meanwhile (src/ledger.rs).
use quote_ledger.Common.{
  ℕ, suc, ◌≤◌, ◌≡◌, refl, subst, String, List, [], length, All, Result, ◌⊎◌, inl, inr, arith,
}
use quote_ledger.Wire.{QuoteUpdate, QuoteEvent, Status}
use quote_ledger.Mapping.RoundTrip.{stored_from}
use quote_ledger.Store.Codec.{Codec, IsLossless}
use quote_ledger.Store.History.{History, Extends}
use quote_ledger.Ledger.State.{Ledger}
use quote_ledger.Ledger.Sound.{DomainHistory, IsSound}
use quote_ledger.Ledger.Safe.{HasRoom}
use quote_ledger.Ledger.Stream.{
  Phase, opening, refused, opened, joined, caught, looking, waiting, reading, ended, channel_of,
  borrow,
}
use quote_ledger.Ledger.Stream.World.{Pending, World, subscribing, Move, run}
use quote_ledger.Ledger.Stream.Follows.{Stage, live, Delivered, events_of, events_of-Follows}
use quote_ledger.Ledger.Stream.Invariant.{PhaseOk, PendingOk, HeadsOk}
use quote_ledger.Ledger.Stream.Noticed.{PhaseNoticed}
use quote_ledger.Ledger.Stream.CaughtUp.{run-WorldNoticed}
use quote_ledger.Ledger.Stream.Schedule.{WorldMoves, run-WorldMoves}

-- Nothing has been sent, or what has been sent follows the history from `after` on.
abbrev pub IsStream : String → List QuoteEvent → ℕ → List (Result QuoteUpdate Status) → Type 0
IsStream q events after sent =
    (sent ≡ [])
    ⊎ ((stage : Stage) × (to : ℕ) × (r : Delivered q events after stage sent to) × (events_of sent
          ≡ stored_from q (suc after) r.mid))

module _ (q : String) (events : List QuoteEvent) (after : ℕ) where
  Delivered-IsStream :
      (stage : Stage) (sent : List (Result QuoteUpdate Status)) (to : ℕ)
      → Delivered q events after stage sent to
      → IsStream q events after sent
  Delivered-IsStream stage sent to r =
      inr (stage, to, r, rw r.start (events_of-Follows q r.pre r.mid stage sent r.follows))

  pub phase-IsStream :
      (phase : Phase) (watermark : ℕ) (sent : List (Result QuoteUpdate Status))
      → PhaseOk q events after phase watermark sent
      → IsStream q events after sent
  phase-IsStream opening watermark sent nothing = inl nothing
  phase-IsStream (refused e) watermark sent nothing = inl nothing
  phase-IsStream (opened init) watermark sent (nothing, _) = inl nothing
  phase-IsStream (joined init) watermark sent (nothing, _) = inl nothing
  phase-IsStream (caught init) watermark sent (r, _) = Delivered-IsStream _ sent _ r
  phase-IsStream looking watermark sent r = Delivered-IsStream _ sent _ r
  phase-IsStream waiting watermark sent r = Delivered-IsStream _ sent _ r
  phase-IsStream (reading head left attempt w e) watermark sent holds =
      Delivered-IsStream _ sent _ holds.0
  phase-IsStream ended watermark sent (stage, to, r) = Delivered-IsStream stage sent to r

-- The histories that a world stores: they go on from the old ones, no head is past them, and the
-- subscriber's stream follows its quote's.
pub record Streams (codec : Codec) (q : String) (after : ℕ) (h : History) (world : World)
    : Type 0 where
  pub h' : History
  pub d' : DomainHistory
  pub sound : IsSound codec world.ledger.conn.db h' d'
  pub longer : Extends h h'
  pub heads : HeadsOk h' world.ledger.bus
  pub stream : IsStream q (h' q) after world.pump.sent

module _ (codec : Codec) (lossless : IsLossless codec) (q : String) (after : ℕ) (ledger : Ledger)
    (pending : List Pending) (h : History) (d : DomainHistory) (moves : List Move)
    (sound : IsSound codec ledger.conn.db h d) (heads : HeadsOk h ledger.bus)
    (pending_ok : All (PendingOk h) pending) (room : HasRoom h (length moves)) where
  abbrev pub later_world : World
  later_world = run codec q after (subscribing ledger pending) moves

  pub moved : WorldMoves codec lossless q after ledger.conn.db h (length moves) later_world
  moved =
      run-WorldMoves codec lossless q after moves (subscribing ledger pending) h d sound room
        (record { heads = heads; pending = pending_ok; pump = refl })

  -- With a lossless encoding of events: whatever the order in which a subscriber's task, appends
  -- and other subscriptions take the locks of a sound ledger with room for the events to come, and
  -- wherever the engine fails or the subscriber goes away: the database is sound afterwards, no
  -- head on the bus is past the history of its quote, and what the subscriber has been sent
  -- follows the quote's history from its seq on without a gap or a repetition: at most one tail
  -- that catches up, one snapshot with the view of just that point, then tails that each begin
  -- where the last one ended, with each event under its seq, and an error only from the engine and
  -- as the last message.
  pub run-Streams : Streams codec q after h later_world
  run-Streams = record {
    h' = moved.moves.h';
    d' = moved.moves.d';
    sound = moved.moves.sound;
    longer = moved.moves.grows.longer;
    heads = moved.in_order.heads;
    stream = phase-IsStream q (moved.moves.h' q) after _ _ _ moved.in_order.pump;
  }

  -- With a lossless encoding of events: after any schedule of a subscriber's task, appends and
  -- other subscriptions from a sound ledger with room for the events to come, wherever the engine
  -- fails, a subscriber who waits at changed() and has seen every send of its quote's channel has
  -- been delivered the history of the quote from its seq on at least up to the head that the
  -- channel holds.
  pub run-caught_up :
      later_world.pump.phase ≡ waiting
      → later_world.pump.seen ≡ length (channel_of later_world.ledger.bus q)
      → (h' : History) × (d' : DomainHistory) × IsSound codec later_world.ledger.conn.db h' d'
        × Extends h h'
        × Delivered q (h' q) after live later_world.pump.sent later_world.pump.watermark
        × (borrow (channel_of later_world.ledger.bus q) ≤ later_world.pump.watermark)
  run-caught_up waits all_seen =
      let noticed =
        run-WorldNoticed codec q after moves (subscribing ledger pending) (omega arith, tt) in
      let here : PhaseNoticed waiting (channel_of later_world.ledger.bus q)
          later_world.pump.watermark later_world.pump.seen =
        subst
          (λ phase.
            PhaseNoticed phase (channel_of later_world.ledger.bus q) later_world.pump.watermark
              later_world.pump.seen)
          waits noticed.1 in
      (
        moved.moves.h',
        moved.moves.d',
        moved.moves.sound,
        moved.moves.grows.longer,
        subst
            (λ phase.
              PhaseOk q (moved.moves.h' q) after phase later_world.pump.watermark
                later_world.pump.sent)
            waits moved.in_order.pump,
        here all_seen,
      )
