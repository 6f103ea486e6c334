-- ===== src/Ledger/AppendCommands/Repeated.antt =====
-- A stream that a client sends again, after other streams, to `append_commands` of src/ledger.rs.
use quote_ledger.Common.{
  ℕ, ◌+◌, ◌≤◌, ◌<◌, ◌≡◌, ◌⊎◌, refl, sym, ap, ◌∙◌, subst, String, List, length, last, ok, err, inl,
  inr, arith,
}
use quote_ledger.Common.Int.{i64_limit}
use quote_ledger.Wire.{AppendCommandsResponse}
use quote_ledger.Mapping.{store_error_to_status}
use quote_ledger.Store.Codec.{Codec, IsLossless}
use quote_ledger.Store.Engine.{engine_fault}
use quote_ledger.Store.History.{History}
use quote_ledger.Ledger.State.{Ledger}
use quote_ledger.Ledger.Sound.{DomainHistory, IsSound}
use quote_ledger.Ledger.Safe.{HasRoom}
use quote_ledger.Ledger.AppendCommands.{Frame, start, seq_after, append_commands}
use quote_ledger.Ledger.AppendCommands.Answer.{counted, append_commands_answers}
use quote_ledger.Ledger.AppendCommands.Moving.{append_commands-Moves}
use quote_ledger.Ledger.AppendCommands.Again.{
  AllAnswered, AllAnswered-grow, AllSettled, settle_all, serve_again,
}

-- The ledger after a stream, and another.
abbrev pub after_both : Codec → ℕ → List Frame → List Frame → Ledger → Ledger
after_both codec cap frames others ledger =
    (append_commands codec cap others (append_commands codec cap frames ledger).1).1

module _ (codec : Codec) (lossless : IsLossless codec) (cap : ℕ) (frames : List Frame) where
  -- On a database where a whole stream has been answered, it is answered alike again.
  pub append_commands_again :
      (q : String) (ledger : Ledger) (h : History) (d : DomainHistory)
      (response : AppendCommandsResponse)
      → IsSound codec ledger.conn.db h d
      → length (h q) < i64_limit
      → AllAnswered ledger.conn.db h q frames response.committed
      → response.last_committed_seq ≡ seq_after 0 (last response.committed)
      → 0 < length frames
      → length frames ≤ cap
      → (((append_commands codec cap frames ledger).0 ≡ ok response)
          ⊎ ((append_commands codec cap frames ledger).0
              ≡ err (store_error_to_status engine_fault)))
        × ((append_commands codec cap frames ledger).1.conn.db ≡ ledger.conn.db)
  unfolding append_commands
  append_commands_again q ledger h d response sound small answered newest some_frame within =
      elim (serve_again codec lossless q cap answered start ledger d refl sound small tt
        (omega (arith, within))) [
          | inl (after, served, same) ↦
              let whole =
                (append_commands_answers codec cap frames ledger response (counted after)).1
                  (record {
                    q = q;
                    after = after;
                    some_frame = some_frame;
                    within = within;
                    served = served;
                    newest = newest;
                    counts = refl;
                  }) in
              (inl (ap (λ p. p.0) whole), ap (λ p. p.1.conn.db) whole ∙ same)
          | inr fails ↦ (inr (rw fails.failed refl), rw fails.failed fails.kept)
        ]

  -- With a lossless encoding of events: when append_commands answers a stream on a sound ledger
  -- that has room for one event for each frame, the database is sound afterwards, keeps earlier
  -- events and keys, and has the command of every frame recorded, in the frames' order, with just
  -- the events of the response: each the event of its command, accepted by the state that the
  -- events before it replay to, under its seq.
  append_commands_records :
      (ledger : Ledger) (h : History) (d : DomainHistory) (response : AppendCommandsResponse)
      → IsSound codec ledger.conn.db h d
      → HasRoom h (length frames)
      → (append_commands codec cap frames ledger).0 ≡ ok response
      → (q : String) × AllSettled codec lossless q ledger.conn.db h frames response.committed
          (append_commands codec cap frames ledger).1.conn.db
  append_commands_records ledger h d response sound room answer =
      let first = (append_commands codec cap frames ledger).1 in
      let s =
        (append_commands_answers codec cap frames ledger response first).0
          (ap (λ r. (r, first)) answer) in
      (
        s.q,
        subst (λ db. AllSettled codec lossless s.q ledger.conn.db h frames response.committed db)
            (sym (ap (λ l. l.conn.db) s.counts))
            (settle_all codec lossless s.q h d s.served sound room),
      )

  -- With a lossless encoding of events: exactly once for whole streams: when append_commands has
  -- answered a stream on a sound ledger that has room for the events to come, and another stream
  -- has run since, the first stream sent again gets the same response or the status of an engine
  -- failure, and leaves the database as it was.
  append_commands_retry :
      (others : List Frame) (ledger : Ledger) (h : History) (d : DomainHistory)
      (response : AppendCommandsResponse)
      → IsSound codec ledger.conn.db h d
      → HasRoom h (length frames + length others)
      → (append_commands codec cap frames ledger).0 ≡ ok response
      → (((append_commands codec cap frames (after_both codec cap frames others ledger)).0
            ≡ ok response)
          ⊎ ((append_commands codec cap frames (after_both codec cap frames others ledger)).0
              ≡ err (store_error_to_status engine_fault)))
        × ((append_commands codec cap frames (after_both codec cap frames others ledger)).1.conn.db
            ≡ (after_both codec cap frames others ledger).conn.db)
  append_commands_retry others ledger h d response sound room answer =
      let first = (append_commands codec cap frames ledger).1 in
      let s =
        (append_commands_answers codec cap frames ledger response first).0
          (ap (λ r. (r, first)) answer) in
      let (q, one) =
        append_commands_records ledger h d response sound (λ j. omega (arith, room j)) answer in
      let two =
        append_commands-Moves codec lossless cap others first one.moves.h' one.moves.d'
          one.moves.sound (λ j. omega (arith, room j, one.moves.few j)) in
      append_commands_again q (after_both codec cap frames others ledger) two.h' two.d' response
        two.sound (omega (arith, room q, one.moves.few q, two.few q))
        (AllAnswered-grow two.grows one.answered) s.newest s.some_frame s.within
