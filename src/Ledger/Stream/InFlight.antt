-- ===== src/Ledger/Stream/InFlight.antt =====
-- The in-flight counter of src/ledger.rs while calls are under way.
use quote_ledger.Common.{
  ℕ, zero, suc, ◌+◌, ◌≤◌, true, false, ◌==◌, Bool-cases, ap, ◌≡◌, refl, ◌∙◌, String, Bool, List, [],
  ◌∷◌, ◌++◌, last, Result, Result-cases, Option-cases, ok, err, inl, inr, arith,
}
use quote_ledger.Wire.{QuoteCommand, StoredEvent, Status}
use quote_ledger.Mapping.{proto_command_to_domain}
use quote_ledger.Store.Codec.{Codec}
use quote_ledger.Ledger.State.{
  Ledger, db, enter, leave, publish_head, fetch_add, fetch_sub, fetch_sub-fetch_add, usize_max,
}
use quote_ledger.Ledger.Identifier.{validate_identifier}
use quote_ledger.Ledger.Subscribe.{Init}
use quote_ledger.Ledger.SubscribeLoad.{Waiting, count_retry, attempt_load}
use quote_ledger.Ledger.Stream.{
  Phase, opening, refused, opened, joined, caught, looking, waiting, reading, ended, Pump,
  take_answer, take_opening, open_read, join_bus, read_chunk, turn_at, take_turn,
}
use quote_ledger.Ledger.Stream.World.{
  Pending, entered, leaving, appended, opened as opened_other, World, Move, arrive, commit,
  complete, after_step, after_steps, without_entered, some_entered, at_connection, open_other,
  publish, turn, take_pending, committing, finish, complete_all, committed_world, opened_world,
  step, run,
}

-- The appends among the calls under way: those that wait for the connection, those that have yet to
-- send their head, and those that have yet to drop their guards.
unfoldable pub appends : List Pending → ℕ
appends [] = 0
appends (entered ∷ pending) = suc (appends pending)
appends (appended q committed ∷ pending) = suc (appends pending)
appends (opened_other q init ∷ pending) = appends pending
appends (leaving ∷ pending) = suc (appends pending)

appends-++ : (xs ys : List Pending) → appends (xs ++ ys) ≡ appends xs + appends ys
unfolding appends
appends-++ [] ys = omega arith
appends-++ (entered ∷ xs) ys = omega (arith, appends-++ xs ys)
appends-++ (appended q committed ∷ xs) ys = omega (arith, appends-++ xs ys)
appends-++ (opened_other q init ∷ xs) ys = appends-++ xs ys
appends-++ (leaving ∷ xs) ys = omega (arith, appends-++ xs ys)

appends-take_pending :
    (i : ℕ) (pending : List Pending)
    → appends pending ≡ appends (take_pending i pending).0 + appends (take_pending i pending).1
unfolding appends
appends-take_pending i [] = refl
appends-take_pending zero (p ∷ pending) = appends-++ (p ∷ []) pending
appends-take_pending (suc i) (p ∷ pending) =
    let rest = appends-take_pending i pending in
    omega (arith, rest, appends-++ (p ∷ []) pending, appends-++ (p ∷ []) (take_pending i pending).1)

-- The calls that wait, as a number: one when there is any.
abbrev count_of : Bool → ℕ
count_of true = 1
count_of false = 0

-- An append that gets the connection after it has waited was counted.
appends-without_entered :
    (pending : List Pending)
    → appends pending ≡ appends (without_entered pending) + count_of (some_entered pending)
unfolding appends
appends-without_entered [] = refl
appends-without_entered (entered ∷ pending) = omega arith
appends-without_entered (appended q committed ∷ pending) =
    omega (arith, appends-without_entered pending)
appends-without_entered (opened_other q init ∷ pending) = appends-without_entered pending
appends-without_entered (leaving ∷ pending) = omega (arith, appends-without_entered pending)

-- What the counter reads after `n` entries that have not been undone.
unfoldable pub counts : ℕ → ℕ
counts zero = 0
counts (suc n) = fetch_add (counts n)

pub counts_below : (n : ℕ) → n ≤ usize_max → counts n ≡ n
unfolding counts
counts_below zero small = refl
counts_below (suc n) small =
    let same = counts_below n (omega (arith, small)) in
    let below : (n == usize_max) ≡ false = ground (arith, small) in rw (same, below) refl

recount : {k n m : ℕ} → k ≡ counts n → n ≡ m → k ≡ counts m
recount counted same = counted ∙ ap counts same

finish_in_flight :
    (q : String) (committed : List StoredEvent) (ledger : Ledger)
    → (finish q committed ledger).in_flight ≡ ledger.in_flight
unfolding finish publish_head
finish_in_flight q committed ledger = elim (Option-cases (last committed)) [
  | inl nothing ↦ rw (finish, nothing) refl
  | inr (e, newest) ↦ rw (finish, newest) refl
]

complete_in_flight :
    (p : Pending) (ledger : Ledger) (n : ℕ)
    → ledger.in_flight ≡ counts (appends (p ∷ []) + n)
    → (complete p ledger).in_flight ≡ counts (appends (after_step p) + n)
unfolding appends publish_head leave counts
complete_in_flight entered ledger n counted = counted
complete_in_flight (appended q committed) ledger n counted =
    finish_in_flight q committed ledger ∙ counted
complete_in_flight (opened_other q init) ledger n counted = counted
complete_in_flight leaving ledger n counted =
    let one : ledger.in_flight ≡ counts (suc n) =
      recount {n = 1 + n} {m = suc n} counted (omega arith) in
    recount {n = n} {m = 0 + n} (ap fetch_sub one ∙ fetch_sub-fetch_add (counts n)) (omega arith)

complete_all_in_flight :
    (pending : List Pending) (ledger : Ledger) (n : ℕ)
    → ledger.in_flight ≡ counts (appends pending + n)
    → (complete_all pending ledger).in_flight ≡ counts (appends (after_steps pending) + n)
complete_all_in_flight [] ledger n counted = counted
complete_all_in_flight (p ∷ pending) ledger n counted =
    let first =
      complete_in_flight p ledger (appends pending + n)
        (recount counted (omega (arith, appends-++ (p ∷ []) pending))) in
    recount
      (complete_all_in_flight pending (complete p ledger) (appends (after_step p) + n)
        (recount first (omega arith)))
      (omega (arith, appends-++ (after_step p) (after_steps pending)))

open_read_in_flight :
    (codec : Codec) (q : String) (after : ℕ) (ledger : Ledger)
    → (open_read codec q after ledger).1.in_flight ≡ ledger.in_flight
unfolding open_read db
open_read_in_flight codec q after ledger = elim (Result-cases (validate_identifier "quote_id" q)) [
  | inl (_, valid) ↦ rw valid refl
  | inr (e, bad) ↦ rw bad refl
]

attempt_in_flight :
    (codec : Codec) (q : String) (from upto attempt : ℕ) (ledger : Ledger)
    → (attempt_load codec q from upto (count_retry attempt ledger)).1.in_flight ≡ ledger.in_flight
unfolding db
attempt_in_flight codec q from upto zero ledger = refl
attempt_in_flight codec q from upto (suc attempt) ledger = refl

take_opening_in_flight :
    (pump : Pump) (p : Result Init Status × Ledger)
    → (take_opening pump p).1.in_flight ≡ p.1.in_flight
take_opening_in_flight pump (ok init, ledger) = refl
take_opening_in_flight pump (err e, ledger) = refl

take_answer_in_flight :
    (there : Bool) (head left attempt : ℕ) (w : Waiting) (pump : Pump)
    (p : Result (List StoredEvent) Status × Ledger)
    → (take_answer there head left attempt w pump p).1.in_flight ≡ p.1.in_flight
take_answer_in_flight there head left attempt w pump (ok found, ledger) = refl
take_answer_in_flight there head left attempt w pump (err e, ledger) = refl

module _ (codec : Codec) (q : String) (after : ℕ) where
  -- A subscriber's turn is no append.
  turn_at_in_flight :
      (phase : Phase) (there : Bool) (pump : Pump) (ledger : Ledger)
      → (turn_at codec q after phase there pump ledger).1.in_flight ≡ ledger.in_flight
  unfolding turn_at join_bus read_chunk
  turn_at_in_flight opening there pump ledger =
      take_opening_in_flight pump (open_read codec q after ledger)
      ∙ open_read_in_flight codec q after ledger
  turn_at_in_flight (reading head (suc left) attempt w e) there pump ledger =
      take_answer_in_flight there head left attempt w pump _
      ∙ attempt_in_flight codec q pump.watermark head attempt ledger
  turn_at_in_flight (reading head zero attempt w e) there pump ledger = refl
  turn_at_in_flight (refused e) there pump ledger = refl
  turn_at_in_flight (opened init) there pump ledger = refl
  turn_at_in_flight (joined init) there pump ledger = refl
  turn_at_in_flight (caught init) there pump ledger = refl
  turn_at_in_flight looking there pump ledger = refl
  turn_at_in_flight waiting there pump ledger = refl
  turn_at_in_flight ended there pump ledger = refl

  -- The counter counts the appends that are under way, above `n`.
  abbrev pub IsCounted : ℕ → World → Type 0
  IsCounted n world = world.ledger.in_flight ≡ counts (appends world.pending + n)

  arriving-IsCounted :
      (n : ℕ) (pending : List Pending) (ledger : Ledger)
      → ledger.in_flight ≡ counts (appends pending + n)
      → (at_connection pending ledger).in_flight
        ≡ counts (suc (appends (without_entered pending) + n))
  unfolding at_connection enter counts
  arriving-IsCounted n pending ledger counted = elim (Bool-cases (some_entered pending)) [
    | inl waited ↦
        let one = appends-without_entered pending in
        rw waited (
          recount {n = appends pending + n} {m = suc (appends (without_entered pending) + n)}
            counted (omega (arith, one, ap count_of waited)))
    | inr none_waits ↦
        let all = appends-without_entered pending in
        rw none_waits (
          recount {n = suc (appends pending + n)} {m = suc (appends (without_entered pending) + n)}
            (ap fetch_add counted) (omega (arith, all, ap count_of none_waits)))
  ]

  committed_world-IsCounted :
      (j : String) (n : ℕ) (world : World) (p : Result (List StoredEvent) Status × Ledger)
      → p.1.in_flight ≡ counts (suc (appends (without_entered world.pending) + n))
      → IsCounted n (committed_world j world p)
  unfolding appends
  committed_world-IsCounted j n world (ok stored, ledger) counted =
      recount counted
        (omega (arith, appends-++ (without_entered world.pending) (appended j stored ∷ [])))
  committed_world-IsCounted j n world (err e, ledger) counted =
      recount counted (omega (arith, appends-++ (without_entered world.pending) (leaving ∷ [])))

  opened_world-IsCounted :
      (j : String) (n : ℕ) (world : World) (p : Result Init Status × Ledger)
      → p.1.in_flight ≡ world.ledger.in_flight
      → IsCounted n world
      → IsCounted n (opened_world j world p)
  unfolding appends
  opened_world-IsCounted j n world (ok init, ledger) same counted =
      recount (same ∙ counted) (omega (arith, appends-++ world.pending (opened_other j init ∷ [])))
  opened_world-IsCounted j n world (err e, ledger) same counted = same ∙ counted

  committing_in_flight :
      (j c : String) (cmd : QuoteCommand) (ledger : Ledger)
      → (committing codec j c cmd ledger).1.in_flight ≡ ledger.in_flight
  unfolding committing db
  committing_in_flight j c cmd ledger = elim (Result-cases (proto_command_to_domain cmd)) [
    | inl (dcmd, parsed) ↦ rw parsed refl
    | inr (status, bad) ↦ rw bad refl
  ]

  step-IsCounted :
      (n : ℕ) (world : World) (move : Move)
      → IsCounted n world
      → IsCounted n (step codec q after world move)
  unfolding step take_turn enter counts appends
  step-IsCounted n world arrive counted =
      recount {n = suc (appends world.pending + n)}
        {m = appends (world.pending ++ entered ∷ []) + n} (ap fetch_add counted)
        (omega (arith, appends-++ world.pending (entered ∷ [])))
  step-IsCounted n world (commit j c cmd) counted = committed_world-IsCounted j n world _ (
      committing_in_flight j c cmd (at_connection world.pending world.ledger)
      ∙ arriving-IsCounted n world.pending world.ledger counted)
  step-IsCounted n world (open_other j from) counted =
      opened_world-IsCounted j n world _ (open_read_in_flight codec j from world.ledger) counted
  step-IsCounted n world (publish i) counted =
      recount
        {n = appends (after_steps (take_pending i world.pending).0)
          + (appends (take_pending i world.pending).1 + n)}
        {m = appends
            ((take_pending i world.pending).1 ++ after_steps (take_pending i world.pending).0)
          + n}
        (complete_all_in_flight (take_pending i world.pending).0 world.ledger
          (appends (take_pending i world.pending).1 + n)
          (recount {n = appends world.pending + n}
            {m = appends (take_pending i world.pending).0
              + (appends (take_pending i world.pending).1 + n)}
            counted (omega (arith, appends-take_pending i world.pending))))
        (omega (
          arith,
          appends-++ (take_pending i world.pending).1
              (after_steps (take_pending i world.pending).0),
        ))
  step-IsCounted n world (turn there) counted =
      turn_at_in_flight world.pump.phase there world.pump world.ledger ∙ counted

  -- Whatever the order in which appends enter the counter, get the connection, send their heads
  -- and drop their guards, with subscriptions and a subscriber's turns between them, and wherever
  -- the engine fails, the in-flight counter holds the number of entries of the appends that wait
  -- for the connection, have yet to send their head or have yet to drop their guards, with the `n`
  -- that it held besides them at the start: no call that is refused or fails is left in it, and
  -- none is left out. The number of entries wraps around as the counter does.
  pub run-IsCounted :
      (n : ℕ) (moves : List Move) (world : World)
      → IsCounted n world
      → IsCounted n (run codec q after world moves)
  unfolding run
  run-IsCounted n [] world counted = counted
  run-IsCounted n (move ∷ moves) world counted =
      run-IsCounted n moves _ (step-IsCounted n world move counted)
