-- ===== src/Ledger/AppendCommands/Stops.antt =====
-- Where a call of `append_commands` stops on a stream that begins well (src/ledger.rs).
use quote_ledger.Common.{
  ℕ, ◌+◌, ◌≤◌, ◌<◌, ◌≡◌, refl, sym, ◌∙◌, false, String, str_eq, ltb, some, List, [], ◌∷◌, ◌++◌,
  length, ok, err, Result, arith, inl, inr, Bool-cases,
}
use quote_ledger.Wire.{AppendCommandRequest, StoredEvent, Status, Code, Message}
use quote_ledger.Mapping.{status}
use quote_ledger.Store.Codec.{Codec}
use quote_ledger.Ledger.State.{Ledger, LedgerM, continue, append_commands_streams}
use quote_ledger.Ledger.Identifier.{validate_identifier}
use quote_ledger.Ledger.AppendCommands.{
  Frame, message, transport_error, idle_timeout, Progress, start, count_command, stream_quote,
  check_message, handle_message, handle_frame, handle_frames, append_commands,
}
use quote_ledger.Ledger.AppendCommands.Served.{Served, progress_by, count_command_within}
use quote_ledger.Ledger.AppendCommands.Rounds.{rounds}

-- A stream that ended in this way has been counted.
abbrev pub noted : String → Ledger → Ledger
noted result ledger = record ledger { metrics = append_commands_streams result ∷ ledger.metrics }

-- After `n` served frames of the quote `q`, the frame ends the call with this status, and turns the
-- ledger into this one.
pub data StopsAt (cap : ℕ) (q : String) (n : ℕ) (after : Ledger)
    : Frame → Status → Ledger → Type 0 where
  timed_out :
      StopsAt cap q n after idle_timeout
        (status Code.deadline_exceeded (Message.text "append_commands stream idle timeout"))
        (noted "timeout" after)
  lost : {e : Status} → StopsAt cap q n after (transport_error e) e (noted "transport_error" after)
  over_cap :
      (msg : AppendCommandRequest)
      → n ≡ cap
      → StopsAt cap q n after
          (message msg)
          (status Code.resource_exhausted
            (Message.numbered "append_commands stream exceeds max " cap " commands"))
          (noted "too_many" after)
  changes_quote :
      (msg : AppendCommandRequest)
      → 0 < n
      → n < cap
      → validate_identifier "client_command_id" msg.client_command_id ≡ ok tt
      → validate_identifier "quote_id" msg.quote_id ≡ ok tt
      → str_eq q msg.quote_id ≡ false
      → StopsAt cap q n after
          (message msg)
          (status Code.invalid_argument
            (Message.text "quote_id must remain consistent within AppendCommands"))
          after

continue_congr :
    {A B : Type 0} (f g : A → LedgerM B) (p : Result A Status × Ledger)
    → ((a : A) (ledger : Ledger) → f a ledger ≡ g a ledger)
    → continue f p ≡ continue g p
continue_congr f g (ok a, ledger) same = same a ledger
continue_congr f g (err e, ledger) same = refl

continue_twice :
    {A B C : Type 0} (f : A → LedgerM B) (g : B → LedgerM C) (p : Result A Status × Ledger)
    → continue g (continue f p) ≡ continue (λ a ledger. continue g (f a ledger)) p
continue_twice f g (ok a, ledger) = refl
continue_twice f g (err e, ledger) = refl

module _ (codec : Codec) (cap : ℕ) where
  handle_frames-++ :
      (p : Progress) (frames more : List Frame) (ledger : Ledger)
      → handle_frames codec cap p (frames ++ more) ledger
        ≡ continue (λ p'. handle_frames codec cap p' more) (handle_frames codec cap p frames ledger)
  unfolding handle_frames
  handle_frames-++ p [] more ledger = refl
  handle_frames-++ p (frame ∷ frames) more ledger =
      continue_congr _ _ (handle_frame codec cap p frame ledger)
        (λ p' l. handle_frames-++ p' frames more l)
      ∙ sym (
          continue_twice (λ p'. handle_frames codec cap p' frames)
            (λ p'. handle_frames codec cap p' more) (handle_frame codec cap p frame ledger))

  -- The variables of the loop after the served frames.
  abbrev pub reached : String → List Frame → List StoredEvent → Progress
  reached q [] committed = start
  reached q (frame ∷ frames) committed = progress_by start q (length (frame ∷ frames)) committed

  handle_frames-reached :
      (q : String) (frames : List Frame) (committed : List StoredEvent) (ledger after : Ledger)
      → Served codec q ledger frames committed after
      → length frames ≤ cap
      → handle_frames codec cap start frames ledger ≡ (ok (reached q frames committed), after)
  unfolding handle_frames
  handle_frames-reached q [] committed ledger after Served.done within = refl
  handle_frames-reached q (frame ∷ frames) committed ledger after served within =
      rounds codec cap q start tt served (omega arith) (omega (arith, within))

  pub stopped :
      (q : String) (frames : List Frame) (committed : List StoredEvent) (ledger after : Ledger)
      (frame : Frame) (rest : List Frame) (e : Status) (ledger' : Ledger)
      → Served codec q ledger frames committed after
      → length frames ≤ cap
      → handle_frame codec cap (reached q frames committed) frame after ≡ (err e, ledger')
      → append_commands codec cap (frames ++ frame ∷ rest) ledger ≡ (err e, ledger')
  unfolding append_commands handle_frames
  stopped q frames committed ledger after frame rest e ledger' served within refused =
      rw
        (
          handle_frames-++ start frames (frame ∷ rest) ledger,
          handle_frames-reached q frames committed ledger after served within,
        )
        (rw refused refl)

  pub count_reached :
      (q : String) (frames : List Frame) (committed : List StoredEvent)
      → (reached q frames committed).command_count ≡ length frames
  count_reached q [] committed = refl
  count_reached q (frame ∷ frames) committed = omega arith

  quote_reached :
      (q : String) (frames : List Frame) (committed : List StoredEvent)
      → 0 < length frames
      → (reached q frames committed).quote_id ≡ some q
  quote_reached q [] committed some_frame = absurd (omega (arith, some_frame))
  quote_reached q (frame ∷ frames) committed some_frame = refl

  too_many :
      (p : Progress) (msg : AppendCommandRequest) (ledger : Ledger)
      → p.command_count ≡ cap
      → handle_frame codec cap p (message msg) ledger ≡ (
        err (
            status Code.resource_exhausted
              (Message.numbered "append_commands stream exceeds max " cap " commands")),
        noted "too_many" ledger,
      )
  unfolding handle_frame handle_message check_message count_command
  too_many p msg ledger full = elim (Bool-cases (ltb cap (p.command_count + 1))) [
    | inl over ↦ rw over refl
    | inr under ↦ absurd (ground (arith, under, full))
  ]

  other_quote :
      (p : Progress) (q : String) (msg : AppendCommandRequest) (ledger : Ledger)
      → p.quote_id ≡ some q
      → p.command_count + 1 ≤ cap
      → validate_identifier "client_command_id" msg.client_command_id ≡ ok tt
      → validate_identifier "quote_id" msg.quote_id ≡ ok tt
      → str_eq q msg.quote_id ≡ false
      → handle_frame codec cap p (message msg) ledger ≡ (
        err (
            status Code.invalid_argument
              (Message.text "quote_id must remain consistent within AppendCommands")),
        ledger,
      )
  unfolding handle_frame handle_message check_message stream_quote
  other_quote p q msg ledger has within client_id valid_quote other =
      rw
        (
          count_command_within codec cap (p.command_count + 1) ledger within,
          client_id,
          valid_quote,
          has,
        )
        (rw other refl)

  pub stopping :
      (q : String) (frames : List Frame) (committed : List StoredEvent) (after : Ledger)
      (frame : Frame) (e : Status) (ledger' : Ledger)
      → StopsAt cap q (length frames) after frame e ledger'
      → handle_frame codec cap (reached q frames committed) frame after ≡ (err e, ledger')
  unfolding handle_frame
  stopping q frames committed after frame e ledger' timed_out = refl
  stopping q frames committed after frame e ledger' lost = refl
  stopping q frames committed after frame e ledger' (over_cap msg full) =
      too_many _ msg after (count_reached q frames committed ∙ full)
  stopping q frames committed after frame e ledger'
        (changes_quote msg some_frame below client_id valid_quote other) =
      other_quote _ q msg after (quote_reached q frames committed some_frame)
        (omega (arith, count_reached q frames committed, below)) client_id valid_quote other

  -- When a stream is served up to a frame and within the cap, append_commands stops at that frame,
  -- whatever follows it, and what the frames before it have committed and sent stays: with
  -- DEADLINE_EXCEEDED on a timeout, with the error of the transport, with RESOURCE_EXHAUSTED on a
  -- message when the cap has been reached, and with INVALID_ARGUMENT on a message below the cap
  -- with valid identifiers but another quote than the frames before it.
  pub append_commands_stops :
      (q : String) (frames : List Frame) (committed : List StoredEvent) (ledger after : Ledger)
      (frame : Frame) (rest : List Frame) (e : Status) (ledger' : Ledger)
      → Served codec q ledger frames committed after
      → length frames ≤ cap
      → StopsAt cap q (length frames) after frame e ledger'
      → append_commands codec cap (frames ++ frame ∷ rest) ledger ≡ (err e, ledger')
  append_commands_stops q frames committed ledger after frame rest e ledger' served within stop =
      stopped q frames committed ledger after frame rest e ledger' served within
        (stopping q frames committed after frame e ledger' stop)
