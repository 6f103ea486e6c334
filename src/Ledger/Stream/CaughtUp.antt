-- ===== src/Ledger/Stream/CaughtUp.antt =====
-- A subscriber of src/ledger.rs who has nothing to notice has everything that was published.
use quote_ledger.Common.{
  ℕ, zero, suc, ◌≤◌, ◌≡◌, refl, ◌∙◌, String, Bool, true, false, List, [], ◌∷◌, length, Result,
  Result-cases, Bool-cases, ok, err, inl, inr, ltb, arith,
}
use quote_ledger.Wire.{QuoteCommand, StoredEvent, Status}
use quote_ledger.Mapping.{proto_command_to_domain}
use quote_ledger.Store.Codec.{Codec}
use quote_ledger.Ledger.State.{Ledger, Channel, db, enter}
use quote_ledger.Ledger.Subscribe.{Init}
use quote_ledger.Ledger.SubscribeLoad.{Waiting, count_retry, attempt_load}
use quote_ledger.Ledger.Stream.{
  Phase, opening, refused, opened, joined, caught, looking, waiting, reading, ended, Pump,
  channel_of, borrow, send_catchup, send_snapshot, push_error, look, wake, take_answer,
  take_opening, open_read, join_bus, read_chunk, turn_at, take_turn,
}
use quote_ledger.Ledger.Stream.World.{
  arrive, Pending, at_connection, World, Move, commit, open_other, publish, turn, take_pending,
  committing, committed_world, opened_world, step, run,
}
use quote_ledger.Ledger.Stream.Reading.{attempt_bus}
use quote_ledger.Ledger.Stream.Noticed.{
  IsNoticed, PhaseNoticed, complete_all-IsNoticed, open_read_bus,
}

module _ (sent : Channel) where
  catchup-IsNoticed :
      (there : Bool) (after : ℕ) (init : Init) (events : List StoredEvent) (pump : Pump)
      → pump.seen ≤ length sent
      → IsNoticed sent (send_catchup there after init events pump)
  catchup-IsNoticed there after init [] pump few = (few, tt)
  catchup-IsNoticed true after init (e ∷ events) pump few = (few, tt)
  catchup-IsNoticed false after init (e ∷ events) pump few = (few, tt)

  snapshot-IsNoticed :
      (there : Bool) (init : Init) (pump : Pump)
      → pump.seen ≤ length sent
      → IsNoticed sent (send_snapshot there init pump)
  snapshot-IsNoticed true init pump few = (few, tt)
  snapshot-IsNoticed false init pump few = (few, tt)

  error-IsNoticed :
      (there : Bool) (e : Status) (pump : Pump)
      → pump.seen ≤ length sent
      → IsNoticed sent (push_error there e pump)
  error-IsNoticed true e pump few = (few, tt)
  error-IsNoticed false e pump few = (few, tt)

  look-IsNoticed :
      (pump : Pump) → pump.seen ≤ length sent → IsNoticed sent (look (borrow sent) pump)
  look-IsNoticed pump few = elim (Bool-cases (ltb pump.watermark (borrow sent))) [
    | inl more ↦ rw more (few, λ all. omega arith)
    | inr nothing ↦ rw nothing (few, λ all. ground arith)
  ]

  wake-IsNoticed : (pump : Pump) → IsNoticed sent pump → IsNoticed sent (wake sent pump)
  wake-IsNoticed pump noticed = elim (Bool-cases (ltb pump.seen (length sent))) [
    | inl new ↦ rw new (omega arith, tt)
    | inr old ↦ rw old noticed
  ]

  answer-IsNoticed :
      (there : Bool) (head left attempt : ℕ) (w : Waiting) (pump : Pump)
      (p : Result (List StoredEvent) Status × Ledger)
      → pump.seen ≤ length sent
      → (pump.seen ≡ length sent → borrow sent ≤ head)
      → IsNoticed sent (take_answer there head left attempt w pump p).0
  answer-IsNoticed there head left attempt w pump (ok [], ledger) few noticed = (few, noticed)
  answer-IsNoticed true head left attempt w pump (ok (e ∷ chunk), ledger) few noticed =
      (few, noticed)
  answer-IsNoticed false head left attempt w pump (ok (e ∷ chunk), ledger) few noticed = (few, tt)
  answer-IsNoticed there head left attempt w pump (err e, ledger) few noticed = (few, noticed)

take_answer_bus :
    (there : Bool) (head left attempt : ℕ) (w : Waiting) (pump : Pump)
    (p : Result (List StoredEvent) Status × Ledger)
    → (take_answer there head left attempt w pump p).1.bus ≡ p.1.bus
take_answer_bus there head left attempt w pump (ok found, ledger) = refl
take_answer_bus there head left attempt w pump (err e, ledger) = refl

module _ (codec : Codec) (q : String) (after : ℕ) where
  abbrev HasNoticed : Pump × Ledger → Type 0
  HasNoticed (pump, ledger) = IsNoticed (channel_of ledger.bus q) pump

  opening-HasNoticed :
      (pump : Pump) (sent : Channel) (p : Result Init Status × Ledger)
      → pump.seen ≤ length (channel_of p.1.bus q)
      → HasNoticed (take_opening pump p)
  opening-HasNoticed pump sent (ok init, ledger) few = (few, tt)
  opening-HasNoticed pump sent (err e, ledger) few = (few, tt)

  turn_at-HasNoticed :
      (phase : Phase) (there : Bool) (pump : Pump) (ledger : Ledger)
      → pump.phase ≡ phase
      → pump.seen ≤ length (channel_of ledger.bus q)
      → PhaseNoticed phase (channel_of ledger.bus q) pump.watermark pump.seen
      → HasNoticed (turn_at codec q after phase there pump ledger)
  unfolding turn_at join_bus read_chunk
  turn_at-HasNoticed opening there pump ledger at few noticed =
      opening-HasNoticed pump [] (open_read codec q after ledger)
        (rw (open_read_bus codec q after ledger) few)
  turn_at-HasNoticed (refused e) there pump ledger at few noticed = rw at (few, noticed)
  turn_at-HasNoticed (opened init) there pump ledger at few noticed = (omega arith, tt)
  turn_at-HasNoticed (joined init) there pump ledger at few noticed =
      catchup-IsNoticed _ there after init init.catchup pump few
  turn_at-HasNoticed (caught init) there pump ledger at few noticed =
      snapshot-IsNoticed _ there init pump few
  turn_at-HasNoticed looking there pump ledger at few noticed =
      look-IsNoticed (channel_of ledger.bus q) pump few
  turn_at-HasNoticed waiting there pump ledger at few noticed =
      wake-IsNoticed (channel_of ledger.bus q) pump (few, rw at noticed)
  turn_at-HasNoticed (reading head zero attempt w e) there pump ledger at few noticed =
      error-IsNoticed _ there _ pump few
  turn_at-HasNoticed (reading head (suc left) attempt w e) there pump ledger at few noticed =
      let p = attempt_load codec q pump.watermark head (count_retry attempt ledger) in
      let same =
        take_answer_bus there head left attempt w pump p
        ∙ attempt_bus codec q pump.watermark head attempt ledger in
      rw same
        (answer-IsNoticed (channel_of ledger.bus q) there head left attempt w pump p few noticed)
  turn_at-HasNoticed ended there pump ledger at few noticed = rw at (few, noticed)

  abbrev pub WorldNoticed : World → Type 0
  WorldNoticed world = IsNoticed (channel_of world.ledger.bus q) world.pump

  opened_world-Noticed :
      (j : String) (world : World) (p : Result Init Status × Ledger)
      → p.1.bus ≡ world.ledger.bus
      → WorldNoticed world
      → WorldNoticed (opened_world j world p)
  opened_world-Noticed j world (ok init, ledger) same noticed = rw same noticed
  opened_world-Noticed j world (err e, ledger) same noticed = rw same noticed

  committed_world-Noticed :
      (j : String) (world : World) (p : Result (List StoredEvent) Status × Ledger)
      → p.1.bus ≡ world.ledger.bus
      → WorldNoticed world
      → WorldNoticed (committed_world j world p)
  committed_world-Noticed j world (ok stored, ledger) same noticed = rw same noticed
  committed_world-Noticed j world (err e, ledger) same noticed = rw same noticed

  committing_bus :
      (j c : String) (cmd : QuoteCommand) (pending : List Pending) (ledger : Ledger)
      → (committing codec j c cmd (at_connection pending ledger)).1.bus ≡ ledger.bus
  unfolding committing at_connection db
  committing_bus j c cmd pending ledger = elim (Result-cases (proto_command_to_domain cmd)) [
    | inl (dcmd, parsed) ↦ rw parsed refl
    | inr (status, bad) ↦ rw bad refl
  ]

  step-WorldNoticed :
      (world : World) (move : Move)
      → WorldNoticed world
      → WorldNoticed (step codec q after world move)
  unfolding step take_turn enter
  step-WorldNoticed world arrive noticed = noticed
  step-WorldNoticed world (commit j c cmd) noticed =
      committed_world-Noticed j world _ (committing_bus j c cmd world.pending world.ledger) noticed
  step-WorldNoticed world (open_other j from) noticed =
      opened_world-Noticed j world _ (open_read_bus codec j from world.ledger) noticed
  step-WorldNoticed world (publish i) noticed =
      complete_all-IsNoticed q world.pump (take_pending i world.pending).0 world.ledger noticed
  step-WorldNoticed world (turn there) (few, noticed) =
      turn_at-HasNoticed world.pump.phase there world.pump world.ledger refl few noticed

  pub run-WorldNoticed :
      (moves : List Move) (world : World)
      → WorldNoticed world
      → WorldNoticed (run codec q after world moves)
  unfolding run
  run-WorldNoticed [] world noticed = noticed
  run-WorldNoticed (move ∷ moves) world noticed =
      run-WorldNoticed moves _ (step-WorldNoticed world move noticed)
