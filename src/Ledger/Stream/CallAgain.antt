-- ===== src/Ledger/Stream/CallAgain.antt =====
-- A stream that was answered in the middle of other calls and is sent again to `append_commands` of
-- src/ledger.rs.
use quote_ledger.Common.{ℕ, ◌+◌, ◌≡◌, ◌⊎◌, subst, String, List, [], ◌∷◌, length, ok, err, arith}
use quote_ledger.Wire.{AppendCommandsResponse}
use quote_ledger.Mapping.{store_error_to_status}
use quote_ledger.Store.Codec.{Codec, IsLossless}
use quote_ledger.Store.Engine.{engine_fault}
use quote_ledger.Store.History.{History}
use quote_ledger.Ledger.State.{Ledger}
use quote_ledger.Ledger.Sound.{DomainHistory, IsSound}
use quote_ledger.Ledger.Outcome.{Moves, Grows-trans, stays}
use quote_ledger.Ledger.Safe.{HasRoom}
use quote_ledger.Ledger.AppendCommands.{Frame, append_commands}
use quote_ledger.Ledger.AppendCommands.Again.{AllAnswered-grow}
use quote_ledger.Ledger.AppendCommands.Repeated.{append_commands_again}
use quote_ledger.Ledger.Stream.World.{World}
use quote_ledger.Ledger.Stream.Invariant.{InOrder}
use quote_ledger.Ledger.Stream.Schedule.{step-WorldMoves}
use quote_ledger.Ledger.Stream.Lives.{Life, live, all_moves, live-Moves}
use quote_ledger.Ledger.Stream.Call.{
  finished, Call, new_call, CallMove, advance, other, call_step, call_run,
}
use quote_ledger.Ledger.Stream.CallSoFar.{
  start-SoFar, CallHolds, PhaseHolds, PhaseHolds-grow, IsBacked,
}
use quote_ledger.Ledger.Stream.CallRecords.{Holds, advance_at-Holds}

-- The call's answer is the response of the first call, or the engine's failure, and nothing is
-- written.
abbrev pub IsAnsweredAgain : Codec → ℕ → List Frame → AppendCommandsResponse → Ledger → Type 0
IsAnsweredAgain codec cap frames response ledger =
    (((append_commands codec cap frames ledger).0 ≡ ok response)
      ⊎ ((append_commands codec cap frames ledger).0 ≡ err (store_error_to_status engine_fault)))
    × ((append_commands codec cap frames ledger).1.conn.db ≡ ledger.conn.db)

module _ (codec : Codec) (lossless : IsLossless codec) (cap : ℕ) (watched : String) (from : ℕ)
    (frames : List Frame) where
  call_step-Holds :
      (world : World) (call : Call) (move : CallMove) (h : History) (d : DomainHistory)
      → IsSound codec world.ledger.conn.db h d
      → HasRoom h 1
      → InOrder watched from h world
      → CallHolds codec cap frames world.ledger.conn.db h call
      → Holds codec lossless cap watched from frames world.ledger.conn.db h 1
          (call_step codec cap watched from (world, call) move)
  unfolding call_step
  call_step-Holds world call advance h d sound room in_order holds =
      advance_at-Holds codec lossless cap watched from frames world h d sound room in_order
        call.phase call holds
  call_step-Holds world call (other move) h d sound room in_order holds =
      let one = step-WorldMoves codec lossless watched from world h d sound room in_order move in
      record {
        moves = one;
        call =
            PhaseHolds-grow codec cap frames one.moves.grows call.phase call.progress call.rest
              holds;
      }

  call_run-Holds :
      (moves : List CallMove) (state : World × Call) (h : History) (d : DomainHistory)
      → IsSound codec state.0.ledger.conn.db h d
      → HasRoom h (length moves)
      → InOrder watched from h state.0
      → CallHolds codec cap frames state.0.ledger.conn.db h state.1
      → Holds codec lossless cap watched from frames state.0.ledger.conn.db h
          (length moves)
          (call_run codec cap watched from state moves)
  unfolding call_run
  call_run-Holds [] state h d sound room in_order holds = record {
    moves = record {
      moves = stays codec lossless state.0.ledger.conn.db h d sound 0;
      in_order = in_order;
    };
    call = holds;
  }
  call_run-Holds (move ∷ moves) state h d sound room in_order holds =
      let one =
        call_step-Holds state.0 state.1 move h d sound (λ j. omega (arith, room j)) in_order
          holds in
      let first = one.moves.moves in
      let next =
        call_run-Holds moves (call_step codec cap watched from state move) first.h' first.d'
          first.sound (λ j. omega (arith, room j, first.few j)) one.moves.in_order one.call in
      record {
        moves = record {
          moves = record {
            h' = next.moves.moves.h';
            d' = next.moves.moves.d';
            sound = next.moves.moves.sound;
            grows = Grows-trans first.grows next.moves.moves.grows;
            few = λ j. omega (arith, first.few j, next.moves.moves.few j);
          };
          in_order = next.moves.in_order;
        };
        call = next.call;
      }

  -- The world and the call after a schedule.
  abbrev pub called : World → List CallMove → World × Call
  called world moves = call_run codec cap watched from (world, new_call frames) moves

  module _ (world : World) (h : History) (d : DomainHistory) (moves : List CallMove)
      (response : AppendCommandsResponse) (sound : IsSound codec world.ledger.conn.db h d)
      (in_order : InOrder watched from h world) where
    Holds-IsBacked :
        (holds : Holds codec lossless cap watched from frames world.ledger.conn.db h
          (length moves)
          (called world moves))
        → (called world moves).1.phase ≡ finished (ok response)
        → IsBacked (called world moves).0.ledger.conn.db holds.moves.moves.h' frames cap response
    Holds-IsBacked holds answered =
        subst
          (λ phase.
            PhaseHolds codec cap frames (called world moves).0.ledger.conn.db holds.moves.moves.h'
              phase (called world moves).1.progress (called world moves).1.rest)
          answered holds.call

    -- With a lossless encoding of events: when a call of append_commands, with any schedule of
    -- appends, subscriptions, sends and turns between its commits and its sends, answers with a
    -- response, from a sound ledger in order with room for the events to come, the database is
    -- sound afterwards and keeps earlier events and keys; the stream had at least one and at most
    -- append_max_commands frames, all of them messages for one quote, and the command of each is
    -- recorded with just the events of the response, in the frames' order, each accepted by the
    -- state that the events before it replay to; and the response has the seq of the last of them.
    pub call_records :
        HasRoom h (length moves)
        → (called world moves).1.phase ≡ finished (ok response)
        → (m : Moves codec world.ledger.conn.db h
            (length moves)
            (called world moves).0.ledger.conn.db)
          × IsBacked (called world moves).0.ledger.conn.db m.h' frames cap response
    call_records room answered =
        let holds =
          call_run-Holds moves (world, new_call frames) h d sound room in_order
            (start-SoFar world.ledger.conn.db h frames cap) in
        (holds.moves.moves, Holds-IsBacked holds answered)

    -- With a lossless encoding of events: exactly once for whole streams, under any interleaving
    -- and over restarts: when a call of append_commands, with any schedule of appends,
    -- subscriptions, sends and turns between its commits and its sends, has answered with a
    -- response, from a sound ledger in order with room for the events to come, then after any
    -- number of further runs of the process the same stream is answered by append_commands with
    -- the same response or with the status of an engine failure, and leaves the database as it
    -- was.
    pub call_again :
        (lives : List Life)
        → HasRoom h (length moves + all_moves lives)
        → (called world moves).1.phase ≡ finished (ok response)
        → IsAnsweredAgain codec cap frames response (live codec (called world moves).0 lives).ledger
    call_again lives room answered =
        let (m, backed) = call_records (λ j. omega (arith, room j)) answered in
        let last =
          live-Moves codec lossless lives (called world moves).0 m.h' m.d' m.sound
            (λ j. omega (arith, room j, m.few j)) in
        append_commands_again codec lossless cap frames backed.q
          (live codec (called world moves).0 lives).ledger last.h' last.d' response last.sound
          (omega (arith, room backed.q, m.few backed.q, last.few backed.q))
          (AllAnswered-grow last.grows backed.answered) backed.newest backed.some_frame
          backed.within
