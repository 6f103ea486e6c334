-- ===== src/Shutdown.antt =====
-- `shutdown_signal` of src/main.rs: the wait for appends that are in flight. What the loop reads in
-- its turn `i` is a parameter: the in-flight counter and the clock, in milliseconds.
use quote_ledger.Common.{
  ℕ, zero, suc, ◌+◌, ◌*◌, ◌<◌, ◌≤◌, ◌≡◌, ◌≢◌, refl, Bool, true, false, leb, ◌==◌, Option, none,
  some, Bool-cases, inl, inr, arith, if◌then◌else◌,
}

abbrev pub drain_timeout : ℕ
drain_timeout = 30_000

abbrev pub tick : ℕ
tick = 200

-- How the wait ends: with no append in flight, or at the deadline with the appends that are left.
pub data Drain : Type 0 where
  complete : Drain
  deadline_reached : ℕ → Drain

module _ (in_flight clock : ℕ → ℕ) (deadline : ℕ) where
  -- The loop, from its turn `i` on; the answer has the turn that ended it.
  unfoldable pub drain : (fuel i : ℕ) → Option (ℕ × Drain)
  drain zero i = none
  drain (suc fuel) i =
      let later = drain fuel (suc i) in
      if in_flight i == 0
      then some (i, complete)
      else (if leb deadline (clock i) then some (i, deadline_reached (in_flight i)) else later)

  abbrev pub EndsWith : ℕ → Drain → Type 0
  EndsWith i complete = in_flight i ≡ 0
  EndsWith i (deadline_reached n) = (n ≡ in_flight i) × (n ≢ 0) × (deadline ≤ clock i)

  -- The loop goes on at every earlier turn, and ends at `i` for the reason it gives.
  pub record Ends (from fuel : ℕ) : Type 0 where
    pub turn : ℕ
    pub outcome : Drain
    pub ends : drain fuel from ≡ some (turn, outcome)
    pub within : turn < from + fuel
    pub reason : EndsWith turn outcome
    pub first : (j : ℕ) → from ≤ j → j < turn → (in_flight j ≢ 0) × (clock j < deadline)

  -- A turn that does not end the loop hands on to the next one.
  go_on :
      (fuel i : ℕ)
      → (in_flight i == 0) ≡ false
      → leb deadline (clock i) ≡ false
      → Ends (suc i) fuel
      → Ends i (suc fuel)
  unfolding drain
  go_on fuel i busy early next = record {
    turn = next.turn;
    outcome = next.outcome;
    ends = rw busy (rw early next.ends);
    within = omega (arith, next.within);
    reason = next.reason;
    first = λ j from before. elim (Bool-cases (j == i)) [
      | inl same ↦
          let here : j ≡ i = ground (arith, same) in
          rw here (ground (arith, busy), ground (arith, early))
      | inr other ↦ next.first j (ground (arith, from, other)) before
    ];
  }

  turn-Ends :
      (fuel i : ℕ) → (leb deadline (clock i) ≡ false → Ends (suc i) fuel) → Ends i (suc fuel)
  unfolding drain
  turn-Ends fuel i next = elim (Bool-cases (in_flight i == 0)) [
    | inl idle ↦ record {
      turn = i;
      outcome = complete;
      ends = rw idle refl;
      within = omega arith;
      reason = ground arith;
      first = λ j from before. absurd (omega (arith, from, before));
    }
    | inr busy ↦ elim (Bool-cases (leb deadline (clock i))) [
      | inl late ↦ record {
        turn = i;
        outcome = deadline_reached (in_flight i);
        ends = rw busy (rw late refl);
        within = omega arith;
        reason = (refl, ground arith, ground arith);
        first = λ j from before. absurd (omega (arith, from, before));
      }
      | inr early ↦ go_on fuel i busy early (next early)
    ]
  ]

  module _ (ticks : (i : ℕ) → clock i + tick ≤ clock (suc i)) where
    drain-Ends : (fuel i : ℕ) → deadline ≤ clock i + tick * fuel → Ends i (suc fuel)
    drain-Ends zero i near = turn-Ends zero i (λ early. absurd (ground (arith, near, early)))
    drain-Ends (suc fuel) i near =
        turn-Ends (suc fuel) i (λ early. drain-Ends fuel (suc i) (omega (arith, near, ticks i)))

-- `shutdown_signal`, with the wait for the signal as it ended, and the time after it; when that wait
-- fails there is nothing to drain.
unfoldable pub shutdown_signal :
    Bool → (in_flight clock : ℕ → ℕ) → (start fuel : ℕ) → Option (Option (ℕ × Drain))
shutdown_signal false in_flight clock start fuel = some none
shutdown_signal true in_flight clock start fuel =
    elim (drain in_flight clock (start + drain_timeout) fuel 0) [
      | none ↦ none
      | some ended ↦ some (some ended)
    ]

drained :
    (in_flight clock : ℕ → ℕ) (start fuel : ℕ) {ended : ℕ × Drain}
    → drain in_flight clock (start + drain_timeout) fuel 0 ≡ some ended
    → shutdown_signal true in_flight clock start fuel ≡ some (some ended)
unfolding shutdown_signal
drained in_flight clock start fuel same = rw (same, shutdown_signal) refl

-- When the clock does not go back and a sleep takes at least a tick, the wait at shutdown ends
-- within 151 turns, whatever the in-flight counter does: at the first turn that reads a counter of
-- zero, or else at the first that reads a clock at or past the deadline, with the number of
-- appends that are left.
pub shutdown_signal-Ends :
    (in_flight clock : ℕ → ℕ) (start : ℕ)
    → start ≤ clock 0
    → ((i : ℕ) → clock i + tick ≤ clock (suc i))
    → (e : Ends in_flight clock (start + drain_timeout) 0 151) × (shutdown_signal true in_flight
          clock start 151
        ≡ some (some (e.turn, e.outcome)))
shutdown_signal-Ends in_flight clock start started ticks =
    let e =
      drain-Ends in_flight clock (start + drain_timeout) ticks 150 0 (omega (arith, started)) in
    (e, drained in_flight clock start 151 e.ends)
