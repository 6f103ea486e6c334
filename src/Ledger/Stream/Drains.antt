-- ===== src/Ledger/Stream/Drains.antt =====
-- The wait of `shutdown_signal` (src/main.rs) for the appends that are under way in src/ledger.rs.
-- The server goes on with its calls while it waits: any moves may come between two of its turns.
use quote_ledger.Common.{
  ℕ, zero, suc, ◌+◌, ◌<◌, ◌≤◌, ◌≡◌, ◌≢◌, refl, sym, ap, ◌∙◌, subst, String, true, some, List, arith,
}
use native.Mathlib.Decide.{dec_lt, ℕ_discrete}
use quote_ledger.Store.Codec.{Codec}
use quote_ledger.Shutdown.{
  Drain, complete, deadline_reached, drain_timeout, tick, EndsWith, shutdown_signal,
  shutdown_signal-Ends,
}
use quote_ledger.Ledger.State.{usize_max}
use quote_ledger.Ledger.Stream.World.{World, Move, run}
use quote_ledger.Ledger.Stream.InFlight.{appends, IsCounted, counts, counts_below, run-IsCounted}

module _ (codec : Codec) (q : String) (after : ℕ) (world : World) (between : ℕ → List Move) where
  -- The world at the wait's turn `i`, with `between i` from there to the next.
  unfoldable pub world_at : ℕ → World
  world_at zero = world
  world_at (suc i) = run codec q after (world_at i) (between i)

  -- The counter that the wait reads.
  abbrev pub counter : ℕ → ℕ
  counter i = (world_at i).ledger.in_flight

  -- The appends that the wait is for.
  abbrev pub under_way : ℕ → ℕ
  under_way i = appends (world_at i).pending

  world_at-IsCounted :
      IsCounted codec q after 0 world → (i : ℕ) → IsCounted codec q after 0 (world_at i)
  unfolding world_at
  world_at-IsCounted counted zero = counted
  world_at-IsCounted counted (suc i) =
      run-IsCounted codec q after 0 (between i) (world_at i) (world_at-IsCounted counted i)

  counter-under_way :
      IsCounted codec q after 0 world → (i : ℕ) → under_way i ≤ usize_max → counter i ≡ under_way i
  counter-under_way counted i small =
      let none_besides : under_way i + 0 ≡ under_way i = omega arith in
      (world_at-IsCounted counted i ∙ ap counts none_besides) ∙ counts_below (under_way i) small

  -- How the wait has ended at its turn `t`.
  abbrev pub DrainsAt : (clock : ℕ → ℕ) (start : ℕ) → ℕ → Drain → Type 0
  DrainsAt clock start t complete = under_way t ≡ 0
  DrainsAt clock start t (deadline_reached n) =
      (n ≡ under_way t) × (n ≢ 0) × (start + drain_timeout ≤ clock t)

  drains_at :
      (clock : ℕ → ℕ) (start t : ℕ) (outcome : Drain)
      → counter t ≡ under_way t
      → EndsWith counter clock (start + drain_timeout) t outcome
      → DrainsAt clock start t outcome
  drains_at clock start t complete same reason = sym same ∙ reason
  drains_at clock start t (deadline_reached n) same (left, some_left, late) =
      (left ∙ same, some_left, late)

  module _ (clock : ℕ → ℕ) (start : ℕ) (counted : IsCounted codec q after 0 world)
      (fits : (i : ℕ) → under_way i ≤ usize_max) (started : start ≤ clock 0)
      (ticks : (i : ℕ) → clock i + tick ≤ clock (suc i)) where
    -- When the counter counts just the appends that are under way as the wait of shutdown_signal
    -- begins, these are never more than a usize counts, the clock does not go back and a sleep
    -- takes at least a tick: whatever calls the server goes on with between the turns of the wait,
    -- the wait ends within 151 turns, and either no append is under way at the turn that ends it
    -- (none waits for the connection, has yet to send its head or has yet to drop its guards), or
    -- the deadline has passed and the number that it reports is that of the appends that are.
    pub shutdown_signal-drains :
        (t : ℕ) × (outcome : Drain) × (t < 151)
        × DrainsAt clock start t outcome
        × (shutdown_signal true counter clock start 151 ≡ some (some (t, outcome)))
    shutdown_signal-drains =
        let (e, ended) = shutdown_signal-Ends counter clock start started ticks in
        (
          e.turn,
          e.outcome,
          omega (arith, e.within),
          drains_at clock start e.turn e.outcome (counter-under_way counted e.turn (fits e.turn))
              e.reason,
          ended,
        )

    clock_grows : (i n : ℕ) → i ≤ n → clock i ≤ clock n
    clock_grows i zero le =
        let same : i ≡ 0 = omega (arith, le) in subst (λ j. clock i ≤ clock j) same (omega arith)
    clock_grows i (suc n) le = elim (ℕ_discrete i (suc n)) [
      | yes same ↦ subst (λ j. clock i ≤ clock j) same (omega arith)
      | no other ↦ omega (arith, clock_grows i n (ground (arith, le, other)), ticks n)
    ]

    -- Before the deadline the wait does not pass over a turn at which no append is under way.
    ends_complete :
        (n t : ℕ) (outcome : Drain)
        → counter n ≡ 0
        → clock n < start + drain_timeout
        → EndsWith counter clock (start + drain_timeout) t outcome
        → (n < t → counter n ≢ 0)
        → (t ≤ n) × (counter t ≡ 0) × (outcome ≡ complete)
    ends_complete n t complete idle early reason first = elim (dec_lt n t) [
      | yes later ↦ absurd (first later idle)
      | no before ↦ (omega (arith, before), reason, refl)
    ]
    ends_complete n t (deadline_reached m) idle early (left, some_left, late) first =
        elim (dec_lt n t) [
          | yes later ↦ absurd (first later idle)
          | no before ↦ absurd (omega (arith, clock_grows t n (omega (arith, before)), late, early))
        ]

    -- When the counter counts just the appends that are under way as the wait of shutdown_signal
    -- begins, these are never more than a usize counts, the clock does not go back and a sleep
    -- takes at least a tick: if at some turn before the deadline no append is under way (none
    -- waits for the connection, has yet to send its head or has yet to drop its guards), the wait
    -- ends at that turn or an earlier one with no append under way, and reports that it is
    -- complete.
    pub shutdown_signal_completes :
        (n : ℕ)
        → under_way n ≡ 0
        → clock n < start + drain_timeout
        → (t : ℕ) × (t ≤ n)
          × (under_way t ≡ 0)
          × (shutdown_signal true counter clock start 151 ≡ some (some (t, complete)))
    shutdown_signal_completes n idle early =
        let (e, ended) = shutdown_signal-Ends counter clock start started ticks in
        let (before, none_left, same) =
          ends_complete n e.turn e.outcome (counter-under_way counted n (fits n) ∙ idle) early
            e.reason (λ later. (e.first n (omega arith) later).0) in
        (
          e.turn,
          before,
          sym (counter-under_way counted e.turn (fits e.turn)) ∙ none_left,
          ended ∙ ap (λ o. some (some (e.turn, o))) same,
        )
