-- ===== src/Ledger/AppendCommands/Halts.antt =====
-- Every frame at which a call of `append_commands` can stop on a stream that begins well
-- (src/ledger.rs), and what it leaves of the database.
use quote_ledger.Common.{
  ℕ, ◌+◌, ◌≤◌, ◌<◌, ◌≡◌, refl, sym, ap, ◌∙◌, false, String, none, List, [], ◌∷◌, ◌++◌, length, ok,
  err, is_ok, map_err, Result, Result-cases, inl, inr, arith,
}
use quote_ledger.Wire.{
  AppendCommandRequest, QuoteCommand, StoredEvent, Status, Code, Message, StoreError,
}
use quote_ledger.Mapping.{status, proto_command_to_domain, store_error_to_status}
use quote_ledger.Store.Codec.{Codec}
use quote_ledger.Ledger.State.{Ledger}
use quote_ledger.Ledger.Identifier.{validate_identifier}
use quote_ledger.Ledger.Closure.{append_closure}
use quote_ledger.Ledger.Outcome.{closure-IsAtomic}
use quote_ledger.Ledger.AppendOne.{append_one}
use quote_ledger.Ledger.AppendOne.Effects.{append_one_malformed, append_one_answer}
use quote_ledger.Ledger.AppendCommands.{
  Frame, message, Progress, check_message, handle_message, handle_frame, append_commands,
}
use quote_ledger.Ledger.AppendCommands.Served.{
  Sends, Served, Agrees, count_command_within, stream_quote_repeats, check_message_passes,
}
use quote_ledger.Ledger.AppendCommands.Stops.{StopsAt, reached, count_reached, stopped, stopping}

-- After `n` served frames of the quote `q`, the frame ends the call with this status, and turns the
-- ledger into this one: the stream or its shape stops it, or a message below the cap has an
-- identifier that is not valid, or no command, or a command that append_one refuses or cannot store.
pub data HaltsAt (codec : Codec) (cap : ℕ) (q : String) (n : ℕ) (after : Ledger)
    : Frame → Status → Ledger → Type 0 where
  stops :
      {frame : Frame} {e : Status} {ledger' : Ledger}
      → StopsAt cap q n after frame e ledger'
      → HaltsAt codec cap q n after frame e ledger'
  bad_client_id :
      (msg : AppendCommandRequest) {e : Status}
      → n < cap
      → validate_identifier "client_command_id" msg.client_command_id ≡ err e
      → HaltsAt codec cap q n after (message msg) e after
  bad_quote_id :
      (msg : AppendCommandRequest) {e : Status}
      → n < cap
      → validate_identifier "client_command_id" msg.client_command_id ≡ ok tt
      → validate_identifier "quote_id" msg.quote_id ≡ err e
      → HaltsAt codec cap q n after (message msg) e after
  no_command :
      (msg : AppendCommandRequest)
      → n < cap
      → validate_identifier "client_command_id" msg.client_command_id ≡ ok tt
      → validate_identifier "quote_id" msg.quote_id ≡ ok tt
      → msg.quote_id ≡ q
      → msg.command ≡ none
      → HaltsAt codec cap q n after
          (message msg)
          (status Code.invalid_argument (Message.text "command required"))
          after
  not_appended :
      (msg : AppendCommandRequest) (cmd : QuoteCommand) {e : Status} {ledger' : Ledger}
      → n < cap
      → Sends q msg cmd
      → append_one codec q msg.client_command_id cmd after ≡ (err e, ledger')
      → HaltsAt codec cap q n after (message msg) e ledger'

module _ (codec : Codec) where
  -- Whatever the request and wherever the engine fails, an append that is answered with an error
  -- has left the database as it was.
  append_one-undone :
      (q c : String) (cmd : QuoteCommand) (ledger : Ledger) {e : Status}
      → (append_one codec q c cmd ledger).0 ≡ err e
      → (append_one codec q c cmd ledger).1.conn.db ≡ ledger.conn.db
  append_one-undone q c cmd ledger {e} failed = elim (Result-cases (proto_command_to_domain cmd)) [
    | inl (dcmd, parsed) ↦
        let closed = append_closure codec q c dcmd ledger.conn in
        let effects = append_one_answer codec q c cmd ledger parsed closed.0 closed.1 refl in
        ap (λ c. c.db) effects.1
        ∙ (closure-IsAtomic codec q c dcmd).undone ledger.conn
            (not_good closed.0 (sym effects.0 ∙ failed))
    | inr (_, refused) ↦ ap (λ c. c.db) (append_one_malformed codec q c cmd ledger refused).1
  ]
    where
      not_good :
          (r : Result (List StoredEvent) StoreError)
          → map_err store_error_to_status r ≡ err e
          → is_ok r ≡ false
      not_good (ok stored) same = absurd (cc same)
      not_good (err x) same = refl

  -- What a frame that ends the call leaves of the database.
  pub HaltsAt-db :
      {cap n : ℕ} {q : String} {after ledger' : Ledger} {frame : Frame} {e : Status}
      → HaltsAt codec cap q n after frame e ledger'
      → ledger'.conn.db ≡ after.conn.db
  HaltsAt-db (stops StopsAt.timed_out) = refl
  HaltsAt-db (stops StopsAt.lost) = refl
  HaltsAt-db (stops (StopsAt.over_cap msg full)) = refl
  HaltsAt-db (stops (StopsAt.changes_quote msg some_frame below client_id valid_quote other)) = refl
  HaltsAt-db (bad_client_id msg below bad) = refl
  HaltsAt-db (bad_quote_id msg below client_id bad) = refl
  HaltsAt-db (no_command msg below client_id valid_quote same nothing) = refl
  HaltsAt-db {q = q} {after = after} (not_appended msg cmd below sends answer) =
      sym (ap (λ p. p.1.conn.db) answer)
      ∙ append_one-undone q msg.client_command_id cmd after (ap (λ p. p.0) answer)

module _ (codec : Codec) (cap : ℕ) where
  refused_client_id :
      (p : Progress) (msg : AppendCommandRequest) (ledger : Ledger) {e : Status}
      → p.command_count + 1 ≤ cap
      → validate_identifier "client_command_id" msg.client_command_id ≡ err e
      → handle_frame codec cap p (message msg) ledger ≡ (err e, ledger)
  unfolding handle_frame handle_message check_message
  refused_client_id p msg ledger within bad =
      rw (count_command_within codec cap (p.command_count + 1) ledger within, bad) refl

  refused_quote_id :
      (p : Progress) (msg : AppendCommandRequest) (ledger : Ledger) {e : Status}
      → p.command_count + 1 ≤ cap
      → validate_identifier "client_command_id" msg.client_command_id ≡ ok tt
      → validate_identifier "quote_id" msg.quote_id ≡ err e
      → handle_frame codec cap p (message msg) ledger ≡ (err e, ledger)
  unfolding handle_frame handle_message check_message
  refused_quote_id p msg ledger within client_id bad =
      rw (count_command_within codec cap (p.command_count + 1) ledger within, client_id, bad) refl

  nothing_sent :
      (p : Progress) (q : String) (msg : AppendCommandRequest) (ledger : Ledger)
      → Agrees p.quote_id q
      → p.command_count + 1 ≤ cap
      → validate_identifier "client_command_id" msg.client_command_id ≡ ok tt
      → validate_identifier "quote_id" msg.quote_id ≡ ok tt
      → msg.quote_id ≡ q
      → msg.command ≡ none
      → handle_frame codec cap p (message msg) ledger
        ≡ (err (status Code.invalid_argument (Message.text "command required")), ledger)
  unfolding handle_frame handle_message check_message
  nothing_sent p q msg ledger agrees within client_id valid_quote same nothing =
      rw
        (
          count_command_within codec cap (p.command_count + 1) ledger within,
          client_id,
          valid_quote,
          same,
          stream_quote_repeats p.quote_id q ledger agrees,
          nothing,
        )
        refl

  failed_append :
      (p : Progress) (q : String) (msg : AppendCommandRequest) (cmd : QuoteCommand)
      (ledger ledger' : Ledger) {e : Status}
      → Agrees p.quote_id q
      → p.command_count + 1 ≤ cap
      → Sends q msg cmd
      → append_one codec q msg.client_command_id cmd ledger ≡ (err e, ledger')
      → handle_frame codec cap p (message msg) ledger ≡ (err e, ledger')
  unfolding handle_frame handle_message
  failed_append p q msg cmd ledger ledger' agrees within sends answer =
      rw (check_message_passes codec cap p q msg cmd ledger agrees within sends) (rw answer refl)

  Agrees-reached :
      (q : String) (frames : List Frame) (committed : List StoredEvent)
      → Agrees (reached codec cap q frames committed).quote_id q
  Agrees-reached q [] committed = tt
  Agrees-reached q (frame ∷ frames) committed = refl

  halting :
      (q : String) (frames : List Frame) (committed : List StoredEvent) (after : Ledger)
      (frame : Frame) (e : Status) (ledger' : Ledger)
      → HaltsAt codec cap q (length frames) after frame e ledger'
      → handle_frame codec cap (reached codec cap q frames committed) frame after ≡ (err e, ledger')
  halting q frames committed after frame e ledger' (stops stop) =
      stopping codec cap q frames committed after frame e ledger' stop
  halting q frames committed after frame e ledger' (bad_client_id msg below bad) =
      refused_client_id _ msg after
        (omega (arith, count_reached codec cap q frames committed, below)) bad
  halting q frames committed after frame e ledger' (bad_quote_id msg below client_id bad) =
      refused_quote_id _ msg after
        (omega (arith, count_reached codec cap q frames committed, below)) client_id bad
  halting q frames committed after frame e ledger'
        (no_command msg below client_id valid_quote same nothing) =
      nothing_sent _ q msg after (Agrees-reached q frames committed)
        (omega (arith, count_reached codec cap q frames committed, below)) client_id valid_quote
        same nothing
  halting q frames committed after frame e ledger' (not_appended msg cmd below sends answer) =
      failed_append _ q msg cmd after ledger' (Agrees-reached q frames committed)
        (omega (arith, count_reached codec cap q frames committed, below)) sends answer

  -- Where a served stream goes on with a frame that ends the call, the call stops there.
  pub append_commands_halts :
      (q : String) (frames : List Frame) (committed : List StoredEvent) (ledger after : Ledger)
      (frame : Frame) (rest : List Frame) (e : Status) (ledger' : Ledger)
      → Served codec q ledger frames committed after
      → length frames ≤ cap
      → HaltsAt codec cap q (length frames) after frame e ledger'
      → append_commands codec cap (frames ++ frame ∷ rest) ledger ≡ (err e, ledger')
  append_commands_halts q frames committed ledger after frame rest e ledger' served within halts =
      stopped codec cap q frames committed ledger after frame rest e ledger' served within
        (halting q frames committed after frame e ledger' halts)
