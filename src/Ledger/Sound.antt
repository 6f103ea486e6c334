-- ===== src/Ledger/Sound.antt =====
-- The invariant of the ledger's database: every quote's stored history is the wire form of a domain
-- history that replays to a valid quote; and what the closure of `append_one` does from there.
use mathlib.Core.List.{map-append}
use quote_ledger.Common.{
  suc, ◌+◌, ◌<◌, ◌≡◌, refl, sym, ap, ◌∙◌, subst, String, none, List, [], ◌∷◌, ◌++◌, map, length,
  str_eq, eq_iff, if◌then◌else◌, Bool-cases, inl, inr, ok, err, map_err,
}
use quote_ledger.Common.Int.{i64_limit}
use quote_ledger.Domain.Model.{DomainError, QuoteState, DomainEvent, DomainCommand}
use quote_ledger.Domain.Reducer.{command_to_events, replay, replay_from}
use quote_ledger.Domain.Reducer.Accepted.{event_of, command_emits}
use quote_ledger.Domain.Reducer.Invariant.{IsValid, accepted-IsValid}
use quote_ledger.Domain.Reducer.Replay.{replay-append}
use quote_ledger.Wire.{QuoteEvent, StoreError}
use quote_ledger.Mapping.{domain_event_to_proto, replay_stored_to_state}
use quote_ledger.Mapping.RoundTrip.{stored_event, stored_from, replay_stored-eq-replay}
use quote_ledger.Store.Tables.{Db, find_key}
use quote_ledger.Store.Codec.{Codec, IsLossless}
use quote_ledger.Store.Runs.{Runs, Runs-bind, Runs-bind_err, Runs-lift_eq}
use quote_ledger.Store.Match.{RowsMatch}
use quote_ledger.Store.Select.{rows_of, Runs-load_stored_events}
use quote_ledger.Store.History.{History, extend, Recorded, Represents, Grows}
use quote_ledger.Store.Contract.{Runs-idempotency_lookup, append_new}
use quote_ledger.Store.Append.{load_stored_events, append_command_events}
use quote_ledger.Ledger.Closure.{events_after, append_at, append_closure}

abbrev pub DomainHistory : Type 0
DomainHistory = String → List DomainEvent

-- A domain history that replays to a valid quote.
abbrev pub ReplaysValid : List DomainEvent → Type 0
ReplaysValid events = (s : QuoteState) × (replay events ≡ ok s) × IsValid s

pub record IsSound (codec : Codec) (db : Db) (h : History) (d : DomainHistory) : Type 0 where
  pub represents : Represents codec db h
  pub events : (q : String) → h q ≡ map domain_event_to_proto (d q)
  pub replays : (q : String) → ReplaysValid (d q)

-- The domain histories after a command on one quote.
abbrev pub extended_domain : DomainHistory → String → DomainCommand → DomainHistory
extended_domain d q cmd j = if str_eq q j then d j ++ event_of cmd ∷ [] else d j

-- The wire form of the one event that a command stands for.
abbrev pub wire_event : DomainCommand → QuoteEvent
wire_event cmd = domain_event_to_proto (event_of cmd)

module _ (q : String) (events : List DomainEvent) (s : QuoteState) (cmd : DomainCommand)
    (reached : replay events ≡ ok s) where
  stored_state : replay_stored_to_state (stored_from q 1 (map domain_event_to_proto events)) ≡ ok s
  stored_state = replay_stored-eq-replay q 1 events ∙ ap (map_err StoreError.domain) reached

  pub events_after_accepted :
      {emitted : List DomainEvent}
      → command_to_events s cmd ≡ ok emitted
      → events_after (stored_from q 1 (map domain_event_to_proto events)) cmd
        ≡ ok (wire_event cmd ∷ [])
  unfolding events_after
  events_after_accepted accepted =
      rw stored_state
        (rw accepted (ap (λ l. ok (map domain_event_to_proto l)) (command_emits s cmd accepted)))

  pub events_after_refused :
      {e : DomainError}
      → command_to_events s cmd ≡ err e
      → events_after (stored_from q 1 (map domain_event_to_proto events)) cmd
        ≡ err (StoreError.domain e)
  unfolding events_after
  events_after_refused refused = rw stored_state (rw refused refl)

module _ (codec : Codec) (lossless : IsLossless codec) (db : Db) (h : History) (d : DomainHistory)
    (q c : String) (cmd : DomainCommand) (sound : IsSound codec db h d) where
  Runs-load_history :
      Runs
        (load_stored_events codec q)
        db
        (ok (stored_from q 1 (map domain_event_to_proto (d q))))
        db
  Runs-load_history =
      Runs-load_stored_events codec lossless q db (map domain_event_to_proto (d q)) (
        subst (λ l. RowsMatch codec q 1 (rows_of db q) l) (sound.events q)
          (sound.represents.rows q))

  -- With a lossless encoding of events: on a sound database, a command with an unused key that the
  -- state of its quote refuses is answered with the refusal and leaves the database as it was,
  -- unless the engine fails.
  pub closure_refused :
      (s : QuoteState) {e : DomainError}
      → find_key db.keys q c ≡ none
      → replay (d q) ≡ ok s
      → command_to_events s cmd ≡ err e
      → Runs (append_closure codec q c cmd) db (err (StoreError.domain e)) db
  unfolding append_closure append_at
  closure_refused s unused reached refused =
      Runs-bind (append_at codec q c cmd) (Runs-idempotency_lookup db q c unused) (
        Runs-bind _ Runs-load_history
          (Runs-bind_err _ (Runs-lift_eq (events_after_refused q (d q) s cmd reached refused) db)))

  extended_events :
      (j : String)
      → extend h q (wire_event cmd ∷ []) j ≡ map domain_event_to_proto (extended_domain d q cmd j)
  extended_events j = elim (Bool-cases (str_eq q j)) [
    | inl e ↦ rw e (rw (sound.events j) (sym (map-append _ (d j) _)))
    | inr e ↦ rw e (sound.events j)
  ]

  module _ (s : QuoteState) {emitted : List DomainEvent} (unused : find_key db.keys q c ≡ none)
      (reached : replay (d q) ≡ ok s) (valid : IsValid s)
      (accepted : command_to_events s cmd ≡ ok emitted) where
    extended_valid : ReplaysValid (d q ++ event_of cmd ∷ [])
    extended_valid =
        let (s', reduced, valid') = accepted-IsValid s cmd valid accepted in
        (
          s',
          replay-append (d q) (event_of cmd ∷ [])
              ∙ rw reached (unfold replay_from in rw reduced refl),
          valid',
        )

    extended_replays : (j : String) → ReplaysValid (extended_domain d q cmd j)
    extended_replays j = elim (Bool-cases (str_eq q j)) [
      | inl e ↦
          rw e
            (subst (λ x. ReplaysValid (d x ++ event_of cmd ∷ [])) ((eq_iff q j).0 e) extended_valid)
      | inr e ↦ rw e (sound.replays j)
    ]

    -- With a lossless encoding of events: on a sound database, a command with an unused key that
    -- the state of its quote accepts, where there is room for the event, is answered with its one
    -- event numbered after the head of the quote unless the engine fails; the event and the key
    -- are then in the database, which is sound for the extended history, and earlier events and
    -- keys stay.
    pub closure_accepted :
        suc (length (h q)) + 1 < i64_limit
        → (db' : Db) × Runs
            (append_closure codec q c cmd)
            db
            (ok (stored_event q (suc (length (h q))) (wire_event cmd) ∷ []))
            db'
          × IsSound codec db' (extend h q (wire_event cmd ∷ [])) (extended_domain d q cmd)
          × Recorded db' (extend h q (wire_event cmd ∷ [])) q c (h q) (wire_event cmd ∷ [])
          × Grows db h db' (extend h q (wire_event cmd ∷ []))
    unfolding append_closure append_at
    closure_accepted small =
        let (db', run, represents, recorded, grows) =
          append_new codec lossless db h q c (wire_event cmd) [] sound.represents unused small in
        (
          db',
          Runs-bind (append_at codec q c cmd) (Runs-idempotency_lookup db q c unused) (
              Runs-bind _ Runs-load_history (
                Runs-bind (append_command_events codec q c)
                  (Runs-lift_eq (events_after_accepted q (d q) s cmd reached accepted) db) run)),
          record { represents = represents; events = extended_events; replays = extended_replays },
          recorded,
          grows,
        )
