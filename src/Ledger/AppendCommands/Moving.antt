-- ===== src/Ledger/AppendCommands/Moving.antt =====
-- Streams of commands keep the invariant of the database (src/ledger.rs).
use native.Mathlib.Nat.{add-zero}
use quote_ledger.Common.{
  Option-cases, ok_or, ◌∙◌, Bool-cases, str_eq, ℕ, suc, ◌+◌, ◌≡◌, refl, String, Option, none, some,
  List, [], ◌∷◌, length, arith, Result, inl, inr, ok, err, ltb,
}
use quote_ledger.Wire.{AppendCommandRequest, Status}
use quote_ledger.Store.Codec.{Codec, IsLossless}
use quote_ledger.Store.History.{History}
use quote_ledger.Ledger.State.{Metric, Ledger, LedgerM, pure, lift, continue}
use quote_ledger.Ledger.Sound.{DomainHistory, IsSound}
use quote_ledger.Ledger.Outcome.{Moves}
use quote_ledger.Ledger.AppendOne.{append_one}
use quote_ledger.Ledger.AppendCommands.{
  Message, Code, status, validate_identifier, progress_after, check_message, Frame, message,
  transport_error, idle_timeout, Progress, start, count_command, stream_quote, handle_message,
  handle_frame, handle_frames, respond, append_commands,
}
use quote_ledger.Ledger.Safe.{
  HasRoom, IsSafe, IsSafe-still, IsSafe-bind, still_bind, append_one-IsSafe, Moves-weaken,
}

-- Nothing but metrics has been recorded.
pub record RecordsOnly (ledger l : Ledger) : Type 0 where
  pub conn : l.conn ≡ ledger.conn
  pub bus : l.bus ≡ ledger.bus
  pub in_flight : l.in_flight ≡ ledger.in_flight

pub metrics-RecordsOnly :
    (ledger : Ledger) (metrics : List Metric)
    → RecordsOnly ledger (record ledger { metrics = metrics })
metrics-RecordsOnly ledger metrics = record { conn = refl; bus = refl; in_flight = refl }

continue-RecordsOnly :
    {A B : Type 0} (f : A → LedgerM B) (p : Result A Status × Ledger) {ledger : Ledger}
    → RecordsOnly ledger p.1
    → ((a : A) (l : Ledger) → RecordsOnly l (f a l).1)
    → RecordsOnly ledger (continue f p).1
continue-RecordsOnly f (ok a, l) first next =
    let then1 = next a l in
    record {
      conn = then1.conn ∙ first.conn;
      bus = then1.bus ∙ first.bus;
      in_flight = then1.in_flight ∙ first.in_flight;
    }
continue-RecordsOnly f (err e, l) first next = first

stream_quote-RecordsOnly :
    (p : Option String) (q : String) (ledger : Ledger)
    → RecordsOnly ledger (stream_quote p q ledger).1
unfolding stream_quote
stream_quote-RecordsOnly none q ledger = metrics-RecordsOnly ledger ledger.metrics
stream_quote-RecordsOnly (some p) q ledger = elim (Bool-cases (str_eq p q)) [
  | inl same ↦ rw same (metrics-RecordsOnly ledger _)
  | inr other ↦ rw other (metrics-RecordsOnly ledger _)
]

module _ (codec : Codec) (cap : ℕ) where
  count_command-RecordsOnly :
      (n : ℕ) (ledger : Ledger) → RecordsOnly ledger (count_command codec cap n ledger).1
  unfolding count_command
  count_command-RecordsOnly n ledger = elim (Bool-cases (ltb cap n)) [
    | inl over ↦ rw over (metrics-RecordsOnly ledger _)
    | inr under ↦ rw under (metrics-RecordsOnly ledger _)
  ]

  pub check_message-RecordsOnly :
      (p : Progress) (msg : AppendCommandRequest) (ledger : Ledger)
      → RecordsOnly ledger (check_message codec cap p msg ledger).1
  unfolding check_message
  check_message-RecordsOnly p msg ledger =
      continue-RecordsOnly _ (count_command codec cap (p.command_count + 1) ledger)
        (count_command-RecordsOnly (p.command_count + 1) ledger)
        (λ _ l.
          continue-RecordsOnly _
            (lift (validate_identifier "client_command_id" msg.client_command_id) l)
            (metrics-RecordsOnly l l.metrics)
            (λ _ l.
              continue-RecordsOnly _ (lift (validate_identifier "quote_id" msg.quote_id) l)
                (metrics-RecordsOnly l l.metrics)
                (λ _ l.
                  continue-RecordsOnly _ (stream_quote p.quote_id msg.quote_id l)
                    (stream_quote-RecordsOnly p.quote_id msg.quote_id l)
                    (λ qid l.
                      continue-RecordsOnly _
                        (lift
                          (ok_or (status Code.invalid_argument (Message.text "command required"))
                            msg.command)
                          l)
                        (metrics-RecordsOnly l l.metrics)
                        (λ cmd l. metrics-RecordsOnly l l.metrics)))))

  pub respond-RecordsOnly :
      (p : Progress) (ledger : Ledger) → RecordsOnly ledger (respond codec cap p ledger).1
  unfolding respond
  respond-RecordsOnly p ledger = elim (Option-cases p.quote_id) [
    | inl nothing ↦ rw nothing (metrics-RecordsOnly ledger _)
    | inr (q, named) ↦ rw named (metrics-RecordsOnly ledger _)
  ]

module _ (codec : Codec) (lossless : IsLossless codec) (cap : ℕ) where
  handle_message-IsSafe :
      (p : Progress) (msg : AppendCommandRequest)
      → IsSafe codec lossless 1 (handle_message codec cap p msg)
  unfolding handle_message
  handle_message-IsSafe p msg =
      still_bind codec lossless 1 (check_message codec cap p msg) _
        (λ ledger. (check_message-RecordsOnly codec cap p msg ledger).conn)
        (λ checked.
          IsSafe-bind codec lossless 1 0
            (append_one codec checked.0 msg.client_command_id checked.1)
            (λ stored. pure (progress_after codec cap p checked.0 stored))
            (append_one-IsSafe codec lossless checked.0 msg.client_command_id checked.1)
            (λ stored. IsSafe-still codec lossless _ (λ ledger. refl)))

  still_frame-IsSafe :
      {A : Type 0} (m : LedgerM A)
      → ((ledger : Ledger) → (m ledger).1.conn ≡ ledger.conn)
      → IsSafe codec lossless 1 m
  still_frame-IsSafe m still = record {
    moves = λ ledger h d sound room.
        Moves-weaken codec lossless 1 (omega arith) (
          (IsSafe-still codec lossless m still).moves ledger h d sound
            (λ q. omega (arith, room q)));
  }

  handle_frame-IsSafe :
      (p : Progress) (frame : Frame) → IsSafe codec lossless 1 (handle_frame codec cap p frame)
  unfolding handle_frame
  handle_frame-IsSafe p (message msg) = handle_message-IsSafe p msg
  handle_frame-IsSafe p (transport_error e) = still_frame-IsSafe _ (λ ledger. refl)
  handle_frame-IsSafe p idle_timeout = still_frame-IsSafe _ (λ ledger. refl)

  suc_one : (n : ℕ) → suc n ≡ 1 + n
  suc_one n = omega arith

  handle_frames-IsSafe :
      (p : Progress) (frames : List Frame)
      → IsSafe codec lossless (length frames) (handle_frames codec cap p frames)
  unfolding handle_frames
  handle_frames-IsSafe p [] = IsSafe-still codec lossless _ (λ ledger. refl)
  handle_frames-IsSafe p (frame ∷ frames) = rw (suc_one (length frames)) (
      IsSafe-bind codec lossless 1 (length frames) _ _ (handle_frame-IsSafe p frame)
        (λ p'. handle_frames-IsSafe p' frames))

  append_commands-IsSafe :
      (frames : List Frame)
      → IsSafe codec lossless (length frames) (append_commands codec cap frames)
  unfolding append_commands
  append_commands-IsSafe frames = rw (← add-zero (length frames)) (
      IsSafe-bind codec lossless (length frames) 0 _ _ (handle_frames-IsSafe start frames) (λ p.
        IsSafe-still codec lossless _ (λ ledger. (respond-RecordsOnly codec cap p ledger).conn)))

  -- With a lossless encoding of events: whatever stream of frames a client sends to a sound ledger
  -- with room for one event for each frame, and wherever the stream ends or the engine fails, the
  -- database is sound afterwards (it holds every quote's history without a gap, each history
  -- replays to a valid quote, and every key names a stretch of one), earlier events and keys are
  -- kept, and each quote has at most one more event for each frame.
  pub append_commands-Moves :
      (frames : List Frame) (ledger : Ledger) (h : History) (d : DomainHistory)
      → IsSound codec ledger.conn.db h d
      → HasRoom h (length frames)
      → Moves codec ledger.conn.db h
          (length frames)
          (append_commands codec cap frames ledger).1.conn.db
  append_commands-Moves frames = (append_commands-IsSafe frames).moves
