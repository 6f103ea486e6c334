-- ===== src/Ledger/Stream/World.antt =====
-- The ledger of src/ledger.rs with calls that are under way: one subscriber, the appends that wait
-- for the connection, the appends and other subscriptions that have used the database and have yet
-- to send their head on the bus, and the appends that have yet to drop their guards. A schedule is
-- a list of moves, in the order in which they take the locks and reach the counter. What the tasks of other
-- subscribers read later changes nothing but metrics, and which call of the engine fails.
use quote_ledger.Common.{
  ℕ, zero, suc, String, Bool, true, false, List, [], ◌∷◌, ◌++◌, last, Result, ok, err,
  if◌then◌else◌,
}
use quote_ledger.Wire.{QuoteCommand, StoredEvent, Status}
use quote_ledger.Mapping.{proto_command_to_domain}
use quote_ledger.Store.Codec.{Codec}
use quote_ledger.Ledger.State.{
  Ledger, LedgerM, pure, lift, ◌>>=◌, ◌>>◌, Metric, emit, db, publish_head, enter,
}
use quote_ledger.Ledger.Closure.{append_closure}
use quote_ledger.Ledger.AppendOne.{publish_last, drop_guards}
use quote_ledger.Ledger.Subscribe.{Init}
use quote_ledger.Ledger.Stream.{Pump, new_pump, open_read, take_turn}

-- A call under way: an append that has entered the counter and waits for the connection, a call
-- that has released the connection and has not sent its head, or an append that has only to drop
-- its guards.
pub data Pending : Type 0 where
  entered : Pending
  appended : String → List StoredEvent → Pending
  opened : String → Init → Pending
  leaving : Pending

pub record World : Type 0 where
  pub ledger : Ledger
  pub pending : List Pending
  pub pump : Pump

-- A subscriber that has just called.
abbrev pub subscribing : Ledger → List Pending → World
subscribing ledger pending = record { ledger = ledger; pending = pending; pump = new_pump }

-- An append enters the counter with `arrive`; with `commit` one of those that wait gets the
-- connection, and when none waits, one that enters now. `open_other` is the first half of another
-- subscription, `publish i` the next step of the pending call `i`, and `turn` the subscriber's.
pub data Move : Type 0 where
  arrive : Move
  commit : (quote_id client_command_id : String) → QuoteCommand → Move
  open_other : (quote_id : String) → (after : ℕ) → Move
  publish : ℕ → Move
  turn : Bool → Move

-- The pending call `i` and the others.
abbrev pub take_pending : ℕ → List Pending → List Pending × List Pending
take_pending i [] = ([], [])
take_pending zero (p ∷ pending) = (p ∷ [], pending)
take_pending (suc i) (p ∷ pending) =
    let (taken, others) = take_pending i pending in (taken, p ∷ others)

-- `append_one` up to the commit.
unfoldable pub committing : Codec → String → String → QuoteCommand → LedgerM (List StoredEvent)
committing codec quote_id client_command_id cmd = do
  domain_cmd ← lift (proto_command_to_domain cmd)
  db (append_closure codec quote_id client_command_id domain_cmd)

-- `append_one` from the commit to the end of its scope.
unfoldable pub finish : String → List StoredEvent → Ledger → Ledger
finish quote_id committed ledger =
    ((do publish_last quote_id (last committed); emit Metric.append_one_commits; pure committed)
      ledger).1

-- The end of the scope of `append_one`.
abbrev pub leave_scope : Ledger → Ledger
leave_scope ledger = (drop_guards {A = Unit {0}} (ok tt, ledger)).1

-- The next step of a pending call; one that waits for the connection takes it with `commit`.
abbrev pub complete : Pending → Ledger → Ledger
complete entered ledger = ledger
complete (appended q committed) ledger = finish q committed ledger
complete (opened q init) ledger = (publish_head q init.last_seq ledger).1
complete leaving ledger = leave_scope ledger

-- What is left of the call after that.
abbrev pub after_step : Pending → List Pending
after_step entered = entered ∷ []
after_step (appended q committed) = leaving ∷ []
after_step (opened q init) = []
after_step leaving = []

abbrev pub after_steps : List Pending → List Pending
after_steps [] = []
after_steps (p ∷ pending) = after_step p ++ after_steps pending

-- The calls without the first that waits for the connection.
abbrev pub without_entered : List Pending → List Pending
without_entered [] = []
without_entered (entered ∷ pending) = pending
without_entered (appended q committed ∷ pending) = appended q committed ∷ without_entered pending
without_entered (opened q init ∷ pending) = opened q init ∷ without_entered pending
without_entered (leaving ∷ pending) = leaving ∷ without_entered pending

abbrev pub some_entered : List Pending → Bool
some_entered [] = false
some_entered (entered ∷ pending) = true
some_entered (appended q committed ∷ pending) = some_entered pending
some_entered (opened q init ∷ pending) = some_entered pending
some_entered (leaving ∷ pending) = some_entered pending

-- The ledger as the append that gets the connection finds it: it has entered the counter before,
-- or it does so now.
unfoldable pub at_connection : List Pending → Ledger → Ledger
at_connection pending ledger = record ledger {
  in_flight = if some_entered pending then ledger.in_flight else (enter ledger).in_flight;
  metrics = if some_entered pending then ledger.metrics else (enter ledger).metrics;
}

abbrev pub complete_all : List Pending → Ledger → Ledger
complete_all [] ledger = ledger
complete_all (p ∷ pending) ledger = complete_all pending (complete p ledger)

-- An append that fails has only to leave the scope of its guards.
abbrev pub committed_world : String → World → Result (List StoredEvent) Status × Ledger → World
committed_world q world (ok committed, ledger) = record world {
  ledger = ledger;
  pending = without_entered world.pending ++ appended q committed ∷ [];
}
committed_world q world (err e, ledger) = record world {
  ledger = ledger;
  pending = without_entered world.pending ++ leaving ∷ [];
}

abbrev pub opened_world : String → World → Result Init Status × Ledger → World
opened_world q world (ok init, ledger) = record world {
  ledger = ledger;
  pending = world.pending ++ opened q init ∷ [];
}
opened_world q world (err e, ledger) = record world { ledger = ledger }

module _ (codec : Codec) (quote_id : String) (after : ℕ) where
  -- One move; the subscriber's stream is of the quote `quote_id`, after `after`.
  unfoldable pub step : World → Move → World
  step world arrive = record world {
    ledger = enter world.ledger;
    pending = world.pending ++ entered ∷ [];
  }
  step world (commit q c cmd) =
      committed_world q world (committing codec q c cmd (at_connection world.pending world.ledger))
  step world (open_other q from) = opened_world q world (open_read codec q from world.ledger)
  step world (publish i) =
      let (taken, others) = take_pending i world.pending in
      record world {
        ledger = complete_all taken world.ledger;
        pending = others ++ after_steps taken;
      }
  step world (turn there) =
      let (pump, ledger) = take_turn codec quote_id after there world.pump world.ledger in
      record world { pump = pump; ledger = ledger }

  unfoldable pub run : World → List Move → World
  run world [] = world
  run world (move ∷ moves) = run (step world move) moves
