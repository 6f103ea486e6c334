-- ===== src/Ledger/Stream/Invariant.antt =====
-- The invariant of the ledger of src/ledger.rs while calls are under way: no head on the bus or yet
-- to be sent is past the history of its quote, and the subscriber's stream keeps its promise.
use quote_ledger.Common.{
  ℕ, zero, suc, ◌<◌, ◌≤◌, ◌≡◌, String, Option, none, some, List, [], ◌∷◌, ◌++◌, length,
  length-append, last, All, Result, arith,
}
use quote_ledger.Common.{ok}
use quote_ledger.Wire.{snapshot, QuoteUpdate, QuoteEvent, StoredEvent, Status}
use quote_ledger.Store.History.{History, Extends}
use quote_ledger.Ledger.State.{Bus}
use quote_ledger.Ledger.Subscribe.{Init}
use quote_ledger.Ledger.SubscribeLoad.Retried.{fault_status}
use quote_ledger.Ledger.Stream.{
  Phase, opening, refused, opened, joined, caught, looking, waiting, reading, ended, Pump,
  channel_of, borrow,
}
use quote_ledger.Ledger.Stream.World.{
  entered, leaving, after_steps, without_entered, Pending, appended, opened as opened_other, World,
}
use quote_ledger.Ledger.Stream.Follows.{
  Stage, fresh, live, Delivered, Delivered-grow, Opens, Opens-grow,
}

-- The last error of a read is the engine's, and there is one once no attempt is left.
abbrev pub IsFaultOnly : ℕ → Option Status → Type 0
IsFaultOnly zero none = ⊥
IsFaultOnly (suc left) none = Unit
IsFaultOnly left (some e) = e ≡ fault_status

-- The stream may be sent the snapshot.
abbrev pub IsCaught :
    String → List QuoteEvent → ℕ → Init → List (Result QuoteUpdate Status) → Type 0
IsCaught q events after init sent =
    Delivered q events after fresh sent init.last_seq
    × Delivered q events after live (ok (snapshot init.last_seq init.view) ∷ sent) init.last_seq

abbrev pub PhaseOk :
    String → List QuoteEvent → ℕ → Phase → ℕ → List (Result QuoteUpdate Status) → Type 0
PhaseOk q events after opening watermark sent = sent ≡ []
PhaseOk q events after (refused e) watermark sent = sent ≡ []
PhaseOk q events after (opened init) watermark sent = (sent ≡ []) × Opens q events after init
PhaseOk q events after (joined init) watermark sent = (sent ≡ []) × Opens q events after init
PhaseOk q events after (caught init) watermark sent = IsCaught q events after init sent
PhaseOk q events after looking watermark sent = Delivered q events after live sent watermark
PhaseOk q events after waiting watermark sent = Delivered q events after live sent watermark
PhaseOk q events after (reading head left attempt w e) watermark sent =
    Delivered q events after live sent watermark
    × (watermark < head)
    × (head ≤ length events)
    × IsFaultOnly left e
PhaseOk q events after ended watermark sent =
    (stage : Stage) × (to : ℕ) × Delivered q events after stage sent to

abbrev pub PumpOk : String → List QuoteEvent → ℕ → Pump → Type 0
PumpOk q events after pump = PhaseOk q events after pump.phase pump.watermark pump.sent

-- What a pending call will send is not past the history.
abbrev pub PendingOk : History → Pending → Type 0
PendingOk h (appended q committed) =
    (e : StoredEvent) → last committed ≡ some e → e.seq ≤ length (h q)
PendingOk h (opened_other q init) = init.last_seq ≤ length (h q)
PendingOk h entered = Unit {0}
PendingOk h leaving = Unit {0}

-- A call that waits for the connection takes the list of the others no further.
pub without_entered-All :
    (h : History) (pending : List Pending)
    → All (PendingOk h) pending
    → All (PendingOk h) (without_entered pending)
without_entered-All h [] bounds = tt
without_entered-All h (entered ∷ pending) (bound, bounds) = bounds
without_entered-All h (appended q committed ∷ pending) (bound, bounds) =
    (bound, without_entered-All h pending bounds)
without_entered-All h (opened_other q init ∷ pending) (bound, bounds) =
    (bound, without_entered-All h pending bounds)
without_entered-All h (leaving ∷ pending) (bound, bounds) =
    (bound, without_entered-All h pending bounds)

pub after_steps-All :
    (h : History) (pending : List Pending) → All (PendingOk h) (after_steps pending)
after_steps-All h [] = tt
after_steps-All h (entered ∷ pending) = (tt, after_steps-All h pending)
after_steps-All h (appended q committed ∷ pending) = (tt, after_steps-All h pending)
after_steps-All h (opened_other q init ∷ pending) = after_steps-All h pending
after_steps-All h (leaving ∷ pending) = after_steps-All h pending

abbrev pub HeadsOk : History → Bus → Type 0
HeadsOk h bus = (q : String) → borrow (channel_of bus q) ≤ length (h q)

pub record InOrder (q : String) (after : ℕ) (h : History) (world : World) : Type 0 where
  pub heads : HeadsOk h world.ledger.bus
  pub pending : All (PendingOk h) world.pending
  pub pump : PumpOk q (h q) after world.pump

pub length-Extends : (h h' : History) → Extends h h' → (q : String) → length (h q) ≤ length (h' q)
length-Extends h h' grows q =
    let (new, e) = grows q in rw e (omega (arith, length-append {0} (h q) new))

module _ (q : String) (events new : List QuoteEvent) (after : ℕ) where
  PhaseOk-grow :
      (phase : Phase) (watermark : ℕ) (sent : List (Result QuoteUpdate Status))
      → PhaseOk q events after phase watermark sent
      → PhaseOk q (events ++ new) after phase watermark sent
  PhaseOk-grow opening watermark sent nothing = nothing
  PhaseOk-grow (refused e) watermark sent nothing = nothing
  PhaseOk-grow (opened init) watermark sent (nothing, opens) = (nothing, Opens-grow new opens)
  PhaseOk-grow (joined init) watermark sent (nothing, opens) = (nothing, Opens-grow new opens)
  PhaseOk-grow (caught init) watermark sent (delivered, shown) =
      (Delivered-grow new delivered, Delivered-grow new shown)
  PhaseOk-grow looking watermark sent delivered = Delivered-grow new delivered
  PhaseOk-grow waiting watermark sent delivered = Delivered-grow new delivered
  PhaseOk-grow (reading head left attempt w e) watermark sent (delivered, ahead, within, faults) = (
    Delivered-grow new delivered,
    ahead,
    omega (arith, within, length-append {0} events new),
    faults,
  )
  PhaseOk-grow ended watermark sent (stage, to, delivered) =
      (stage, to, Delivered-grow new delivered)

module _ (h h' : History) (grows : Extends h h') where
  pub PumpOk-grow :
      (q : String) (after : ℕ) (pump : Pump)
      → PumpOk q (h q) after pump
      → PumpOk q (h' q) after pump
  PumpOk-grow q after pump keeps =
      let (new, e) = grows q in
      rw e (PhaseOk-grow q (h q) new after pump.phase pump.watermark pump.sent keeps)

  pub PendingOk-grow : (p : Pending) → PendingOk h p → PendingOk h' p
  PendingOk-grow (appended q committed) bound =
      λ e newest. omega (arith, bound e newest, length-Extends h h' grows q)
  PendingOk-grow (opened_other q init) bound = omega (arith, bound, length-Extends h h' grows q)
  PendingOk-grow entered bound = tt
  PendingOk-grow leaving bound = tt

  pub pending-grow :
      (pending : List Pending) → All (PendingOk h) pending → All (PendingOk h') pending
  pending-grow [] _ = tt
  pending-grow (p ∷ pending) (first, others) = (PendingOk-grow p first, pending-grow pending others)

  pub HeadsOk-grow : (bus : Bus) → HeadsOk h bus → HeadsOk h' bus
  HeadsOk-grow bus heads q = omega (arith, heads q, length-Extends h h' grows q)
