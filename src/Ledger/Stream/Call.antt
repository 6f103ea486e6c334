-- ===== src/Ledger/Stream/Call.antt =====
-- A call of `append_commands` of src/ledger.rs in the middle of other calls: it handles a frame up to
-- the commit in one move, and sends the head in the next. It enters the counter with the first and
-- leaves it with the second: nothing that is said of the call reads the counter.
use quote_ledger.Common.{ℕ, String, List, [], ◌∷◌, Result, ok, err}
use quote_ledger.Wire.{
  AppendCommandRequest, AppendCommandsResponse, QuoteCommand, StoredEvent, Status, Code, Message,
}
use quote_ledger.Mapping.{status}
use quote_ledger.Store.Codec.{Codec}
use quote_ledger.Ledger.State.{Ledger, enter, append_commands_streams}
use quote_ledger.Ledger.AppendOne.{drop_guards}
use quote_ledger.Ledger.AppendCommands.{
  Frame, message, transport_error, idle_timeout, Progress, start, check_message, progress_after,
  respond,
}
use quote_ledger.Ledger.Stream.World.{World, Move, committing, finish, leave_scope, step}

-- Before the next frame, between the commit and the send of a command, or at the end.
pub data CallPhase : Type 0 where
  receiving : CallPhase
  sending : (quote_id : String) → List StoredEvent → CallPhase
  finished : Result AppendCommandsResponse Status → CallPhase

pub record Call : Type 0 where
  pub rest : List Frame
  pub progress : Progress
  pub phase : CallPhase

abbrev pub new_call : List Frame → Call
new_call frames = record { rest = frames; progress = start; phase = receiving }

-- The call returns with an error.
abbrev pub fail_call : Call → World → Status → Ledger → World × Call
fail_call call world e ledger =
    (record world { ledger = ledger }, record call { phase = finished (err e) })

-- `append_one` up to the commit, of a command for the quote `q`.
abbrev pub committed_call :
    Call → String → World → Result (List StoredEvent) Status × Ledger → World × Call
committed_call call q world (ok stored, ledger) =
    (record world { ledger = ledger }, record call { phase = sending q stored })
committed_call call q world (err e, ledger) =
    fail_call call world e (drop_guards {A = List StoredEvent} (err e, ledger)).1

abbrev pub responded : Call → World → Result AppendCommandsResponse Status × Ledger → World × Call
responded call world (r, ledger) =
    (record world { ledger = ledger }, record call { phase = finished r })

module _ (codec : Codec) (append_max_commands : ℕ) where
  -- What follows the tests of the loop.
  abbrev pub checked_call :
      Call
      → AppendCommandRequest
      → World
      → Result (String × QuoteCommand) Status × Ledger
      → World × Call
  checked_call call msg world (ok (q, cmd), ledger) =
      committed_call call q world (committing codec q msg.client_command_id cmd (enter ledger))
  checked_call call msg world (err e, ledger) = fail_call call world e ledger

  abbrev pub take_frame : Call → Frame → World → World × Call
  take_frame call (message msg) world =
      checked_call call msg world
        (check_message codec append_max_commands call.progress msg world.ledger)
  take_frame call (transport_error e) world = fail_call call world e (record world.ledger {
    metrics = append_commands_streams "transport_error" ∷ world.ledger.metrics;
  })
  take_frame call idle_timeout world =
      fail_call call world
        (status Code.deadline_exceeded (Message.text "append_commands stream idle timeout"))
        (record world.ledger { metrics = append_commands_streams "timeout" ∷ world.ledger.metrics })

  abbrev pub receive : Call → List Frame → World → World × Call
  receive call [] world =
      responded call world (respond codec append_max_commands call.progress world.ledger)
  receive call (frame ∷ rest) world = take_frame (record call { rest = rest }) frame world

  -- The call's next move.
  abbrev pub advance_at : CallPhase → Call → World → World × Call
  advance_at receiving call world = receive call call.rest world
  advance_at (sending q stored) call world = (
    record world { ledger = leave_scope (finish q stored world.ledger) },
    record call {
      progress = progress_after codec append_max_commands call.progress q stored;
      phase = receiving;
    },
  )
  advance_at (finished r) call world = (world, call)

-- The call's own move, or another one.
pub data CallMove : Type 0 where
  advance : CallMove
  other : Move → CallMove

module _ (codec : Codec) (append_max_commands : ℕ) (watched : String) (from : ℕ) where
  unfoldable pub call_step : World × Call → CallMove → World × Call
  call_step (world, call) advance = advance_at codec append_max_commands call.phase call world
  call_step (world, call) (other move) = (step codec watched from world move, call)

  unfoldable pub call_run : World × Call → List CallMove → World × Call
  call_run state [] = state
  call_run state (move ∷ moves) = call_run (call_step state move) moves
