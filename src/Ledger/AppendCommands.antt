-- ===== src/Ledger/AppendCommands.antt =====
-- `append_commands` of src/ledger.rs: the client-streaming call.
pub mod Again
pub mod Answer
pub mod Moving
pub mod Repeated
pub mod Resumed
pub mod Retry
pub mod Rounds
pub mod Served
pub mod Stops
pub mod Halts
use quote_ledger.Common.{
  ℕ, suc, ◌+◌, ltb, not, str_eq, String, Bool, Option, none, some, List, [], ◌∷◌, ◌++◌, last, ok_or,
  if◌then◌else◌, ok, err,
}
use quote_ledger.Wire.{
  AppendCommandRequest, AppendCommandsResponse, QuoteCommand, StoredEvent, Status, Code, Message,
}
use quote_ledger.Mapping.{status}
use quote_ledger.Store.Codec.{Codec}
use quote_ledger.Ledger.State.{Ledger, LedgerM, pure, fail, lift, ◌>>=◌, ◌>>◌, Metric, emit}
use quote_ledger.Ledger.Identifier.{validate_identifier}
use quote_ledger.Ledger.AppendOne.{append_one}

-- What `timeout(append_idle_timeout, stream.message())` yields; the end of the list is `Ok(None)`.
pub data Frame : Type 0 where
  message : AppendCommandRequest → Frame
  transport_error : Status → Frame
  idle_timeout : Frame

-- The variables of the loop.
pub record Progress : Type 0 where
  pub quote_id : Option String
  pub last_committed_seq : ℕ
  pub all_committed : List StoredEvent
  pub command_count : ℕ

abbrev pub start : Progress
start = record { quote_id = none; last_committed_seq = 0; all_committed = []; command_count = 0 }

-- `match &quote_id { … }`: the quote of the stream after this message.
unfoldable pub stream_quote : Option String → String → LedgerM String
stream_quote none q = pure q
stream_quote (some p) q =
    if not (str_eq p q)
    then fail (
        status Code.invalid_argument
          (Message.text "quote_id must remain consistent within AppendCommands"))
    else pure p

-- `if let Some(tail) = stored.last() { … }`
abbrev pub seq_after : ℕ → Option StoredEvent → ℕ
seq_after seq none = seq
seq_after seq (some e) = e.seq

module _ (codec : Codec) (append_max_commands : ℕ) where
  -- `command_count += 1` and the test of the cap
  unfoldable pub count_command : ℕ → LedgerM (Unit {0})
  count_command command_count =
      if ltb append_max_commands command_count
      then emit (Metric.append_commands_streams "too_many")
        >> fail (
            status Code.resource_exhausted (
              Message.numbered "append_commands stream exceeds max " append_max_commands
                " commands"))
      else pure tt

  -- What the loop tests of a message: the quote and the command to append.
  unfoldable pub check_message : Progress → AppendCommandRequest → LedgerM (String × QuoteCommand)
  check_message p msg = do
    count_command (p.command_count + 1)
    lift (validate_identifier "client_command_id" msg.client_command_id)
    lift (validate_identifier "quote_id" msg.quote_id)
    qid ← stream_quote p.quote_id msg.quote_id
    cmd ← lift (ok_or (status Code.invalid_argument (Message.text "command required")) msg.command)
    pure (qid, cmd)

  -- The variables of the loop after a message.
  abbrev pub progress_after : Progress → String → List StoredEvent → Progress
  progress_after p qid stored = record {
    quote_id = some qid;
    last_committed_seq = seq_after p.last_committed_seq (last stored);
    all_committed = p.all_committed ++ stored;
    command_count = p.command_count + 1;
  }

  -- One round of the loop, on a message.
  unfoldable pub handle_message : Progress → AppendCommandRequest → LedgerM Progress
  handle_message p msg = do
    checked ← check_message p msg
    stored ← append_one codec checked.0 msg.client_command_id checked.1
    pure (progress_after p checked.0 stored)

  unfoldable pub handle_frame : Progress → Frame → LedgerM Progress
  handle_frame p (message msg) = handle_message p msg
  handle_frame p (transport_error e) = do
    emit (Metric.append_commands_streams "transport_error")
    fail e
  handle_frame p idle_timeout = do
    emit (Metric.append_commands_streams "timeout")
    fail (status Code.deadline_exceeded (Message.text "append_commands stream idle timeout"))

  unfoldable pub handle_frames : Progress → List Frame → LedgerM Progress
  handle_frames p [] = pure p
  handle_frames p (frame ∷ frames) = do p' ← handle_frame p frame; handle_frames p' frames

  -- What follows the loop.
  unfoldable pub respond : Progress → LedgerM AppendCommandsResponse
  respond p = elim p.quote_id [
    | none ↦ do
      emit (Metric.append_commands_streams "invalid")
      fail (status Code.invalid_argument (Message.text "append_commands stream was empty"))
    | some _ ↦ do
      emit (Metric.append_commands_streams "ok")
      emit Metric.append_commands_stream_duration
      pure (record { last_committed_seq = p.last_committed_seq; committed = p.all_committed })
  ]

  unfoldable pub append_commands : List Frame → LedgerM AppendCommandsResponse
  append_commands frames = do p ← handle_frames start frames; respond p
