-- ===== src/Ledger/Known.antt =====
-- The closure of `append_one` on a key that is there already (src/ledger.rs).
use quote_ledger.Common.{
  suc, ◌+◌, ◌-◌, ◌<◌, ◌≡◌, ◌≢◌, refl, sym, ap, ◌∙◌, subst, String, List, [], ◌∷◌, ◌++◌, map, length,
  length-map, arith, Result, Result-cases, inl, inr, ok, err,
}
use native.Mathlib.Decide.{ℕ_discrete}
use quote_ledger.Common.Text.{String-discrete}
use quote_ledger.Common.Int.{i64_limit}
use quote_ledger.Domain.Model.{DomainError, QuoteState, DomainEvent, DomainCommand}
use quote_ledger.Domain.Reducer.{command_to_events, replay}
use quote_ledger.Wire.{QuoteEvent, StoredEvent, StoreError, idempotency_conflict}
use quote_ledger.Mapping.{domain_event_to_proto}
use quote_ledger.Mapping.RoundTrip.{stored_event, stored_from}
use quote_ledger.Store.Tables.{Db}
use quote_ledger.Store.Codec.{Codec, IsLossless}
use quote_ledger.Store.Runs.{Runs, Runs-bind, Runs-bind_err, Runs-lift_eq}
use quote_ledger.Store.Match.{RowsMatch}
use quote_ledger.Store.Select.{rows_of, Runs-load_between}
use quote_ledger.Store.History.{History, Recorded, Represents}
use quote_ledger.Store.Contract.{Runs-idempotency_lookup, append_again, append_conflict}
use quote_ledger.Store.Append.{append_command_events, load_stored_events_between}
use quote_ledger.Ledger.Closure.{append_at, append_closure}
use quote_ledger.Ledger.Sound.{wire_event, events_after_accepted, events_after_refused}

-- The answer that a command has had: its event, stored after the history that accepted it.
pub record Answered (db : Db) (h : History) (q c : String) (cmd : DomainCommand)
    (stored : List StoredEvent) : Type 0 where
  pub before : List DomainEvent
  pub state : QuoteState
  pub reached : replay before ≡ ok state
  pub emitted : List DomainEvent
  pub accepted : command_to_events state cmd ≡ ok emitted
  pub recorded : Recorded db h q c (map domain_event_to_proto before) (wire_event cmd ∷ [])
  pub is_stored : stored ≡ stored_event q (suc (length before)) (wire_event cmd) ∷ []

-- A good answer is recorded.
abbrev pub Answers :
    Db → History → String → String → DomainCommand → Result (List StoredEvent) StoreError → Type 0
Answers db h q c cmd (ok stored) = Answered db h q c cmd stored
Answers db h q c cmd (err e) = Unit

events-discrete : Discrete (List QuoteEvent)
events-discrete = hlevel (String-discrete, ℕ_discrete)

module _ (codec : Codec) (lossless : IsLossless codec) (db : Db) (h : History) (q c : String)
    (before : List DomainEvent) (s : QuoteState) (ev : QuoteEvent) (more : List QuoteEvent)
    (represents : Represents codec db h)
    (r : Recorded db h q c (map domain_event_to_proto before) (ev ∷ more))
    (reached : replay before ≡ ok s) (small : length (h q) < i64_limit) where
  abbrev pre : List QuoteEvent
  pre = map domain_event_to_proto before

  Runs-load_before :
      Runs
        (load_stored_events_between codec q 0 (suc (length pre) - 1))
        db
        (ok (stored_from q 1 pre))
        db
  Runs-load_before = rw back (
      Runs-load_between codec lossless q db [] pre (ev ∷ (more ++ r.post))
        (subst (λ l. RowsMatch codec q 1 (rows_of db q) l) r.history (represents.rows q))
        (subst (λ (l : List QuoteEvent). length l < i64_limit) r.history small))
    where
      back : suc (length pre) - 1 ≡ 0 + length pre
      back = omega arith

  Runs-known :
      (cmd : DomainCommand) {emitted : List DomainEvent}
      {answer : Result (List StoredEvent) StoreError}
      → command_to_events s cmd ≡ ok emitted
      → Runs (append_command_events codec q c (wire_event cmd ∷ [])) db answer db
      → Runs (append_closure codec q c cmd) db answer db
  unfolding append_closure append_at
  Runs-known cmd accepted run =
      Runs-bind (append_at codec q c cmd) (Runs-idempotency_lookup db q c r.key) (
        Runs-bind _ Runs-load_before (
          Runs-bind (append_command_events codec q c)
            (Runs-lift_eq (events_after_accepted q before s cmd reached accepted) db) run))

  -- With a lossless encoding of events: when a key is recorded on a database that represents a
  -- history and comes again with a command that the state before its events accepts and that
  -- stands for the same events, the closure answers with the events as they were stored and leaves
  -- the database as it was, unless the engine fails; the quote's head fits into an i64.
  known_again :
      (cmd : DomainCommand) {emitted : List DomainEvent}
      → command_to_events s cmd ≡ ok emitted
      → ev ∷ more ≡ wire_event cmd ∷ []
      → Runs
          (append_closure codec q c cmd)
          db
          (ok (stored_from q (suc (length pre)) (ev ∷ more)))
          db
  known_again cmd accepted same =
      Runs-known cmd accepted
        (rw (← same) (append_again codec lossless db h q c pre ev more represents r small))

  -- With a lossless encoding of events: when a key is recorded on a database that represents a
  -- history and comes again with a command that the state before its events accepts, but that
  -- stands for other events, the closure refuses it as a conflict and leaves the database as it
  -- was, unless the engine fails; the quote's head fits into an i64.
  pub known_conflict :
      (cmd : DomainCommand) {emitted : List DomainEvent}
      → command_to_events s cmd ≡ ok emitted
      → ev ∷ more ≢ wire_event cmd ∷ []
      → Runs (append_closure codec q c cmd) db (err (idempotency_conflict q c)) db
  known_conflict cmd accepted other = Runs-known cmd accepted (
      append_conflict codec lossless db h q c pre ev more represents r small (wire_event cmd ∷ [])
        other)

  -- With a lossless encoding of events: when a key is recorded on a database that represents a
  -- history and comes again with a command that the state before its events refuses, the closure
  -- answers with that refusal, whatever was recorded, and leaves the database as it was, unless
  -- the engine fails; the quote's head fits into an i64.
  pub known_refused :
      (cmd : DomainCommand) {e : DomainError}
      → command_to_events s cmd ≡ err e
      → Runs (append_closure codec q c cmd) db (err (StoreError.domain e)) db
  unfolding append_closure append_at
  known_refused cmd refused =
      Runs-bind (append_at codec q c cmd) (Runs-idempotency_lookup db q c r.key) (
        Runs-bind _ Runs-load_before
          (Runs-bind_err _ (Runs-lift_eq (events_after_refused q before s cmd reached refused) db)))

  -- Whatever comes with a known key, nothing is written, and a good answer is what was recorded.
  pub known_outcome :
      (cmd : DomainCommand)
      → (answer : Result (List StoredEvent) StoreError) × Runs
          (append_closure codec q c cmd)
          db
          answer
          db
        × Answers db h q c cmd answer
  known_outcome cmd = elim (Result-cases (command_to_events s cmd)) [
    | inl (emitted, accepted) ↦ elim (events-discrete (ev ∷ more) (wire_event cmd ∷ [])) [
      | yes same ↦ (
        ok (stored_from q (suc (length pre)) (ev ∷ more)),
        known_again cmd accepted same,
        record {
          before = before;
          state = s;
          reached = reached;
          emitted = emitted;
          accepted = accepted;
          recorded = subst (λ l. Recorded db h q c pre l) same r;
          is_stored =
              ap (stored_from q (suc (length pre))) same
              ∙ ap (λ n. stored_event q (suc n) (wire_event cmd) ∷ [])
                  (length-map domain_event_to_proto before);
        },
      )
      | no other ↦ (err (idempotency_conflict q c), known_conflict cmd accepted other, tt)
    ]
    | inr (e, refused) ↦ (err (StoreError.domain e), known_refused cmd refused, tt)
  ]

-- A command that has been answered is answered alike when it comes again, and nothing is written.
pub Answered-again :
    (codec : Codec) (lossless : IsLossless codec) (db : Db) (h : History) (q c : String)
    (cmd : DomainCommand) {stored : List StoredEvent}
    → Represents codec db h
    → Answered db h q c cmd stored
    → length (h q) < i64_limit
    → Runs (append_closure codec q c cmd) db (ok stored) db
Answered-again codec lossless db h q c cmd represents a small =
    rw
      (a.is_stored
        ∙ ap (λ n. stored_event q (suc n) (wire_event cmd) ∷ [])
            (sym (length-map domain_event_to_proto a.before)))
      (known_again codec lossless db h q c a.before a.state (wire_event cmd) [] represents
        a.recorded a.reached small cmd a.accepted refl)
