-- ===== src/Ledger/AppendCommands/Again.antt =====
-- The frames of a stream whose commands have all been answered before (src/ledger.rs).
use quote_ledger.Common.{
  ℕ, ◌+◌, ◌≤◌, ◌<◌, ◌≡◌, ◌⊎◌, refl, sym, ap, ◌∙◌, subst, String, List, [], ◌∷◌, ◌++◌, length,
  Result, ok, err, inl, inr, arith,
}
use quote_ledger.Common.Int.{i64_limit}
use quote_ledger.Domain.Model.{DomainCommand}
use quote_ledger.Wire.{AppendCommandRequest, QuoteCommand, StoredEvent, Status}
use quote_ledger.Mapping.{proto_command_to_domain, store_error_to_status}
use quote_ledger.Store.Tables.{Db}
use quote_ledger.Store.Codec.{Codec, IsLossless}
use quote_ledger.Store.Engine.{engine_fault}
use quote_ledger.Store.History.{History, Grows}
use quote_ledger.Ledger.State.{Ledger, LedgerM, continue}
use quote_ledger.Ledger.Sound.{DomainHistory, IsSound}
use quote_ledger.Ledger.Known.{Answered}
use quote_ledger.Ledger.Outcome.{Moves, Grows-trans, stays}
use quote_ledger.Ledger.Safe.{HasRoom}
use quote_ledger.Ledger.AppendOne.{append_one}
use quote_ledger.Ledger.AppendCommands.{
  Frame, message, Progress, handle_message, handle_frame, handle_frames, progress_after,
}
use quote_ledger.Ledger.AppendCommands.Served.{Sends, Served, Agrees, check_message_passes}
use quote_ledger.Ledger.AppendCommands.Rounds.{handle_frame_answers}
use quote_ledger.Ledger.AppendCommands.Retry.{Answered-grow, Settled, settle, append_one_again}

continue_err :
    {A B : Type 0} (f : A → LedgerM B) (p : Result A Status × Ledger) {e : Status}
    → p.0 ≡ err e
    → continue f p ≡ (err e, p.1)
continue_err f (ok a, ledger) failed = absurd (cc failed)
continue_err f (err e, ledger) failed = ap (λ r. (r, ledger)) (cc failed)

-- Every frame is a message for `q` whose command is recorded in the database with its answer, and
-- the answers in a row are these events.
pub data AllAnswered (db : Db) (h : History) (q : String)
    : List Frame → List StoredEvent → Type 0 where
  none_left : AllAnswered db h q [] []
  one_more :
      {frames : List Frame} {stored rest : List StoredEvent} (msg : AppendCommandRequest)
      (cmd : QuoteCommand) (dcmd : DomainCommand)
      → Sends q msg cmd
      → proto_command_to_domain cmd ≡ ok dcmd
      → Answered db h q msg.client_command_id dcmd stored
      → AllAnswered db h q frames rest
      → AllAnswered db h q (message msg ∷ frames) (stored ++ rest)

pub AllAnswered-grow :
    {db db' : Db} {h h' : History} {q : String} {frames : List Frame} {committed : List StoredEvent}
    → Grows db h db' h'
    → AllAnswered db h q frames committed
    → AllAnswered db' h' q frames committed
AllAnswered-grow grows none_left = none_left
AllAnswered-grow grows (one_more msg cmd dcmd sends parsed answered more) =
    one_more msg cmd dcmd sends parsed (Answered-grow _ _ dcmd grows answered)
      (AllAnswered-grow grows more)

module _ (codec : Codec) (lossless : IsLossless codec) (q : String) where
  -- What a served stream leaves behind.
  pub record AllSettled (db : Db) (h : History) (frames : List Frame) (committed : List StoredEvent)
      (db' : Db) : Type 0 where
    pub moves : Moves codec db h (length frames) db'
    pub answered : AllAnswered db' moves.h' q frames committed

  pub settle_all :
      {ledger after : Ledger} {frames : List Frame} {committed : List StoredEvent} (h : History)
      (d : DomainHistory)
      → Served codec q ledger frames committed after
      → IsSound codec ledger.conn.db h d
      → HasRoom h (length frames)
      → AllSettled ledger.conn.db h frames committed after.conn.db
  settle_all {ledger} h d Served.done sound room = record {
    moves = stays codec lossless ledger.conn.db h d sound 0;
    answered = none_left;
  }
  settle_all {ledger} h d (Served.next {between} {frames} {stored} msg cmd sends answer more) sound
        room =
      let here =
        settle codec lossless q msg.client_command_id cmd ledger h d sound (omega (arith, room q))
          (ap (λ p. p.0) answer) in
      let one =
        subst
          (λ l.
            Settled codec lossless q msg.client_command_id cmd ledger.conn.db h l.conn.db stored)
          (ap (λ p. p.1) answer) here in
      let others =
        settle_all one.moves.h' one.moves.d' more one.moves.sound
          (λ j. omega (arith, room j, one.moves.few j)) in
      record {
        moves = record {
          h' = others.moves.h';
          d' = others.moves.d';
          sound = others.moves.sound;
          grows = Grows-trans one.moves.grows others.moves.grows;
          few = λ j. omega (arith, one.moves.few j, others.moves.few j);
        };
        answered =
            one_more msg cmd one.domain_cmd sends one.parsed
              (Answered-grow q msg.client_command_id one.domain_cmd others.moves.grows one.answered)
              others.answered;
      }

  -- The engine fails in a round.
  pub record Fails (cap : ℕ) (p : Progress) (frames : List Frame) (ledger : Ledger) : Type 0 where
    pub after : Ledger
    pub failed :
        handle_frames codec cap p frames ledger ≡ (err (store_error_to_status engine_fault), after)
    pub kept : after.conn.db ≡ ledger.conn.db

  module _ (cap : ℕ) where
    handle_frame_fails :
        (p : Progress) (msg : AppendCommandRequest) (cmd : QuoteCommand) (ledger : Ledger)
        (e : Status)
        → Agrees p.quote_id q
        → p.command_count + 1 ≤ cap
        → Sends q msg cmd
        → (append_one codec q msg.client_command_id cmd ledger).0 ≡ err e
        → handle_frame codec cap p (message msg) ledger
          ≡ (err e, (append_one codec q msg.client_command_id cmd ledger).1)
    unfolding handle_frame handle_message
    handle_frame_fails p msg cmd ledger e agrees within sends failed =
        rw (check_message_passes codec cap p q msg cmd ledger agrees within sends)
          (continue_err _ (append_one codec q msg.client_command_id cmd ledger) failed)

    -- Frames that have all been answered are served again, until the engine fails.
    pub serve_again :
        {db : Db} {h : History} {frames : List Frame} {committed : List StoredEvent}
        (answered : AllAnswered db h q frames committed) (p : Progress) (ledger : Ledger)
        (d : DomainHistory)
        → ledger.conn.db ≡ db
        → IsSound codec db h d
        → length (h q) < i64_limit
        → Agrees p.quote_id q
        → p.command_count + length frames ≤ cap
        → ((after : Ledger) × Served codec q ledger frames committed after
            × (after.conn.db ≡ ledger.conn.db))
          ⊎ Fails cap p frames ledger
    unfolding handle_frames
    serve_again none_left p ledger d here sound small agrees within =
        inl (ledger, Served.done, refl)
    serve_again {db} {h} (one_more {frames} {stored} msg cmd dcmd sends parsed answered more) p
          ledger d here sound small agrees within =
        let once = append_one codec q msg.client_command_id cmd ledger in
        let (outcome, kept) =
          append_one_again codec lossless q msg.client_command_id cmd ledger h d dcmd parsed
            (subst (λ x. IsSound codec x h d) (sym here) sound)
            (subst (λ x. Answered x h q msg.client_command_id dcmd stored) (sym here) answered)
            small in
        elim outcome [
          | inl good ↦
              let answer : once ≡ (ok stored, once.1) = ap (λ r. (r, once.1)) good in
              elim (serve_again more (progress_after codec cap p q stored) once.1 d (kept ∙ here)
                sound small refl (omega (arith, within))) [
                  | inl (after, served, same) ↦
                      inl (after, Served.next msg cmd sends answer served, same ∙ kept)
                  | inr fails ↦ inr (record {
                    after = fails.after;
                    failed =
                        rw
                          (handle_frame_answers codec cap p q msg cmd ledger once.1 stored agrees
                            (omega (arith, within)) sends answer)
                          fails.failed;
                    kept = fails.kept ∙ kept;
                  })
                ]
          | inr fault ↦ inr (record {
            after = once.1;
            failed =
                rw
                  (handle_frame_fails p msg cmd ledger _ agrees (omega (arith, within)) sends fault)
                  refl;
            kept = kept;
          })
        ]
