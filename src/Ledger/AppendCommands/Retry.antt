-- ===== src/Ledger/AppendCommands/Retry.antt =====
-- A command that a client sends again after any other streams (src/ledger.rs).
use quote_ledger.Common.{
  ℕ, suc, ◌+◌, ◌<◌, ◌≡◌, refl, sym, ap, ◌∙◌, subst, String, List, length, arith, Result-cases, inl,
  inr, ◌⊎◌, ok, err, is_ok, map_err, map_err-eq-ok,
}
use quote_ledger.Common.Int.{i64_limit}
use quote_ledger.Domain.Model.{DomainCommand}
use quote_ledger.Wire.{QuoteCommand, StoredEvent}
use quote_ledger.Mapping.{proto_command_to_domain, store_error_to_status}
use quote_ledger.Store.Tables.{Db}
use quote_ledger.Store.Codec.{Codec, IsLossless}
use quote_ledger.Store.Runs.{Ends-at}
use quote_ledger.Store.Engine.{engine_fault}
use quote_ledger.Store.History.{History, Grows, Recorded-grow}
use quote_ledger.Ledger.State.{Ledger}
use quote_ledger.Ledger.Sound.{DomainHistory, IsSound}
use quote_ledger.Ledger.Known.{Answered, Answers, Answered-again}
use quote_ledger.Ledger.Closure.{append_closure}
use quote_ledger.Ledger.Outcome.{Moves, closure-Moves, closure-IsAtomic}
use quote_ledger.Ledger.AppendOne.{append_one}
use quote_ledger.Ledger.AppendOne.Effects.{append_one_malformed, append_one_answer}
use quote_ledger.Ledger.AppendCommands.{Frame, append_commands}
use quote_ledger.Ledger.AppendCommands.Moving.{append_commands-Moves}
use quote_ledger.Ledger.Safe.{HasRoom}

pub Answered-grow :
    {db db' : Db} {h h' : History} (q c : String) (cmd : DomainCommand) {stored : List StoredEvent}
    → Grows db h db' h'
    → Answered db h q c cmd stored
    → Answered db' h' q c cmd stored
Answered-grow q c cmd grows a = record {
  before = a.before;
  state = a.state;
  reached = a.reached;
  emitted = a.emitted;
  accepted = a.accepted;
  recorded = Recorded-grow q c _ _ grows a.recorded;
  is_stored = a.is_stored;
}

-- The ledger after a first call and a stream.
abbrev pub later : Codec → String → String → QuoteCommand → ℕ → List Frame → Ledger → Ledger
later codec q c cmd cap frames ledger =
    (append_commands codec cap frames (append_one codec q c cmd ledger).1).1

module _ (codec : Codec) (lossless : IsLossless codec) (q c : String) (cmd : QuoteCommand) where
  -- What a good answer from `db` leaves behind in `db'`.
  pub record Settled (db : Db) (h : History) (db' : Db) (stored : List StoredEvent) : Type 0 where
    pub domain_cmd : DomainCommand
    pub parsed : proto_command_to_domain cmd ≡ ok domain_cmd
    pub moves : Moves codec db h 1 db'
    pub answered : Answered db' moves.h' q c domain_cmd stored

  pub settle :
      (ledger : Ledger) (h : History) (d : DomainHistory) {stored : List StoredEvent}
      → IsSound codec ledger.conn.db h d
      → suc (length (h q)) + 1 < i64_limit
      → (append_one codec q c cmd ledger).0 ≡ ok stored
      → Settled ledger.conn.db h (append_one codec q c cmd ledger).1.conn.db stored
  settle ledger h d {stored} sound small answer =
      elim (Result-cases (proto_command_to_domain cmd)) [
        | inl (dcmd, parsed) ↦
            let (same, conn, _, _) = append_one_answer codec q c cmd ledger parsed _ _ refl in
            let (m, answers) =
              closure-Moves codec lossless ledger.conn.db h d sound q c dcmd ledger.conn refl
                small in
            let good =
              map_err-eq-ok store_error_to_status (append_closure codec q c dcmd ledger.conn).0
                (sym same ∙ answer) in
            rw conn (record {
              domain_cmd = dcmd;
              parsed = parsed;
              moves = m;
              answered =
                  subst
                    (λ r. Answers (append_closure codec q c dcmd ledger.conn).1.db m.h' q c dcmd r)
                    good answers;
            })
        | inr (status, refused) ↦
            absurd (cc (answer, (append_one_malformed codec q c cmd ledger refused).0))
      ]

  -- From a database where the answer is recorded, the call answers with it again.
  pub append_one_again :
      (ledger : Ledger) (h : History) (d : DomainHistory) (dcmd : DomainCommand)
      {stored : List StoredEvent}
      → proto_command_to_domain cmd ≡ ok dcmd
      → IsSound codec ledger.conn.db h d
      → Answered ledger.conn.db h q c dcmd stored
      → length (h q) < i64_limit
      → (((append_one codec q c cmd ledger).0 ≡ ok stored)
          ⊎ ((append_one codec q c cmd ledger).0 ≡ err (store_error_to_status engine_fault)))
        × ((append_one codec q c cmd ledger).1.conn.db ≡ ledger.conn.db)
  append_one_again ledger h d dcmd parsed sound answered small =
      let (same, conn, _, _) = append_one_answer codec q c cmd ledger parsed _ _ refl in
      let run =
        Answered-again codec lossless ledger.conn.db h q c dcmd sound.represents answered small in
      elim (Ends-at run ledger.conn refl) [
        | inl (good, kept) ↦ (inl (same ∙ ap (map_err store_error_to_status) good), rw conn kept)
        | inr fault ↦ (
          inr (same ∙ ap (map_err store_error_to_status) fault),
          rw conn ((closure-IsAtomic codec q c dcmd).undone ledger.conn (ap is_ok fault)),
        )
      ]

  -- With a lossless encoding of events: exactly once: when append_one has answered a command with
  -- stored events on a sound ledger that has room for the events to come, and any stream of frames
  -- has run since, a second call with the same quote, key and command answers with the same stored
  -- events or with the status of an engine failure, and leaves the database as it was.
  append_one_retry :
      (cap : ℕ) (frames : List Frame) (ledger : Ledger) (h : History) (d : DomainHistory)
      (stored : List StoredEvent)
      → IsSound codec ledger.conn.db h d
      → HasRoom h (suc (length frames))
      → (append_one codec q c cmd ledger).0 ≡ ok stored
      → (((append_one codec q c cmd (later codec q c cmd cap frames ledger)).0 ≡ ok stored)
          ⊎ ((append_one codec q c cmd (later codec q c cmd cap frames ledger)).0
              ≡ err (store_error_to_status engine_fault)))
        × ((append_one codec q c cmd (later codec q c cmd cap frames ledger)).1.conn.db
            ≡ (later codec q c cmd cap frames ledger).conn.db)
  append_one_retry cap frames ledger h d stored sound room answer =
      let one = settle ledger h d sound (omega (arith, room q)) answer in
      let two =
        append_commands-Moves codec lossless cap frames (append_one codec q c cmd ledger).1
          one.moves.h' one.moves.d' one.moves.sound (λ j. omega (arith, room j, one.moves.few j)) in
      append_one_again (later codec q c cmd cap frames ledger) two.h' two.d' one.domain_cmd
        one.parsed two.sound (Answered-grow q c one.domain_cmd two.grows one.answered)
        (omega (arith, room q, one.moves.few q, two.few q))
