-- ===== src/Ledger/Stream/CommitAgain.antt =====
-- A command that comes again to the ledger of src/ledger.rs, whatever calls have been under way and
-- however often the process has been started again.
use quote_ledger.Common.{
  ◌+◌, ℕ, suc, ◌≡◌, ◌⊎◌, refl, sym, ap, ◌∙◌, subst, String, List, length, Result-cases, ok, err,
  inl, inr, map_err, map_err-eq-ok, arith,
}
use quote_ledger.Domain.Model.{DomainCommand}
use quote_ledger.Wire.{QuoteCommand, StoredEvent, Status}
use quote_ledger.Mapping.{proto_command_to_domain, store_error_to_status}
use quote_ledger.Store.Codec.{Codec, IsLossless}
use quote_ledger.Store.Engine.{Connection, engine_fault}
use quote_ledger.Store.History.{History}
use quote_ledger.Ledger.State.{Ledger, db}
use quote_ledger.Ledger.Closure.{append_closure}
use quote_ledger.Ledger.Sound.{DomainHistory, IsSound}
use quote_ledger.Ledger.Known.{Answered, Answers}
use quote_ledger.Ledger.Outcome.{Moves, closure-Moves}
use quote_ledger.Ledger.Safe.{HasRoom}
use quote_ledger.Ledger.AppendOne.{append_one}
use quote_ledger.Ledger.AppendCommands.Retry.{Answered-grow, append_one_again}
use quote_ledger.Ledger.Stream.World.{
  at_connection, World, Move, commit, committing, committed_world, step, run,
}
use quote_ledger.Ledger.Stream.Invariant.{InOrder}
use quote_ledger.Ledger.Stream.Lives.{Life, live, all_moves, live-Moves}
use quote_ledger.Ledger.Stream.Schedule.{committed_world-InOrder, run-WorldMoves}

-- The call's answer is the one of the first call, or the engine's failure, and nothing is written.
abbrev pub IsRepeated : Codec → String → String → QuoteCommand → List StoredEvent → Ledger → Type 0
IsRepeated codec q c cmd stored ledger =
    (((append_one codec q c cmd ledger).0 ≡ ok stored)
      ⊎ ((append_one codec q c cmd ledger).0 ≡ err (store_error_to_status engine_fault)))
    × ((append_one codec q c cmd ledger).1.conn.db ≡ ledger.conn.db)

module _ (codec : Codec) (lossless : IsLossless codec) (q c : String) (cmd : QuoteCommand)
    (watched : String) (from : ℕ) where
  -- The commit of a command that is well formed.
  committing_by :
      (ledger : Ledger) {dcmd : DomainCommand}
      → proto_command_to_domain cmd ≡ ok dcmd
      → committing codec q c cmd ledger ≡ (
        map_err store_error_to_status (append_closure codec q c dcmd ledger.conn).0,
        record ledger { conn = (append_closure codec q c dcmd ledger.conn).1 },
      )
  unfolding committing db
  committing_by ledger parsed = rw parsed refl

  committing_malformed :
      (ledger : Ledger) {e : Status}
      → proto_command_to_domain cmd ≡ err e
      → (committing codec q c cmd ledger).0 ≡ err e
  unfolding committing
  committing_malformed ledger refused = rw refused refl

  module _ (world : World) (h : History) (d : DomainHistory) (stored : List StoredEvent)
      (moves : List Move) (lives : List Life) (sound : IsSound codec world.ledger.conn.db h d)
      (room : HasRoom h (suc (length moves + all_moves lives)))
      (in_order : InOrder watched from h world) where
    -- From the world after the commit on.
    from_commit_on :
        (dcmd : DomainCommand) (conn : Connection)
        (m : Moves codec world.ledger.conn.db h 1 conn.db)
        → proto_command_to_domain cmd ≡ ok dcmd
        → Answered conn.db m.h' q c dcmd stored
        → IsRepeated codec q c cmd stored
            (live codec
              (run codec watched from
                (committed_world q world
                  (ok stored, record (at_connection world.pending world.ledger) { conn = conn }))
                moves)
              lives).ledger
    from_commit_on dcmd conn m parsed answered =
        let world1 =
          committed_world q world
            (ok stored, record (at_connection world.pending world.ledger) { conn = conn }) in
        let next =
          run-WorldMoves codec lossless watched from moves world1 m.h' m.d' m.sound
            (λ j. omega (arith, room j, m.few j))
            (committed_world-InOrder codec lossless watched from q c dcmd world.ledger.conn.db h
              world (ok stored) conn m answered in_order) in
        let last =
          live-Moves codec lossless lives (run codec watched from world1 moves) next.moves.h'
            next.moves.d' next.moves.sound
            (λ j. omega (arith, room j, m.few j, next.moves.few j)) in
        append_one_again codec lossless q c cmd
          (live codec (run codec watched from world1 moves) lives).ledger last.h' last.d' dcmd
          parsed last.sound
          (Answered-grow q c dcmd last.grows (Answered-grow q c dcmd next.moves.grows answered))
          (omega (arith, room q, m.few q, next.moves.few q, last.few q))

    -- With a lossless encoding of events: exactly once under any interleaving and over restarts:
    -- when the first half of a call of append_one has answered with stored events, in the middle
    -- of other calls and of a subscriber's stream on a sound ledger with room for the events to
    -- come, and any schedule of appends, other subscriptions, sends and turns has followed, and
    -- after it any number of further runs of the process, a call with the same quote, key and
    -- command answers with the same stored events or with the status of an engine failure, and
    -- leaves the database as it was.
    pub commit_again :
        (committing codec q c cmd (at_connection world.pending world.ledger)).0 ≡ ok stored
        → IsRepeated codec q c cmd stored
            (live codec
              (run codec watched from (step codec watched from world (commit q c cmd)) moves)
              lives).ledger
    unfolding step at_connection
    commit_again answer = elim (Result-cases (proto_command_to_domain cmd)) [
      | inl (dcmd, parsed) ↦
          let closed = append_closure codec q c dcmd world.ledger.conn in
          let (m, answers) =
            closure-Moves codec lossless world.ledger.conn.db h d sound q c dcmd world.ledger.conn
              refl (omega (arith, room q)) in
          let by = committing_by (at_connection world.pending world.ledger) parsed in
          let good =
            map_err-eq-ok store_error_to_status closed.0 (ap (λ p. p.0) (sym by) ∙ answer) in
          let whole =
            by
            ∙ ap
                (λ r. (
                  map_err store_error_to_status r,
                  record (at_connection world.pending world.ledger) { conn = closed.1 },
                ))
                good in
          subst
            (λ r.
              IsRepeated codec q c cmd stored
                (live codec (run codec watched from (committed_world q world r) moves)
                  lives).ledger)
            (sym whole)
            (from_commit_on dcmd closed.1 m parsed
              (subst (λ r. Answers closed.1.db m.h' q c dcmd r) good answers))
      | inr (e, refused) ↦
          absurd
            (cc (answer, committing_malformed (at_connection world.pending world.ledger) refused))
    ]
