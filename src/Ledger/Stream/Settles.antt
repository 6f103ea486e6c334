-- ===== src/Ledger/Stream/Settles.antt =====
-- How long a subscriber of src/ledger.rs takes to follow a head.
use quote_ledger.Common.{
  ℕ, zero, suc, ◌<◌, ◌≤◌, ◌≡◌, refl, subst, String, true, Option, List, [], ◌∷◌, length, Result,
  Bool-cases, ok, err, ◌⊎◌, inl, inr, ltb, arith,
}
use quote_ledger.Wire.{QuoteUpdate, StoredEvent, Status}
use quote_ledger.Store.Codec.{Codec}
use quote_ledger.Ledger.State.{Ledger}
use quote_ledger.Ledger.SubscribeLoad.{Waiting, count_retry, attempt_load}
use quote_ledger.Ledger.Stream.{
  looking, waiting, reading, ended, Pump, channel_of, borrow, deliver, take_answer, read_chunk,
  turn_at, take_turn,
}
use quote_ledger.Ledger.Stream.World.{World, Move, turn, step, run}

-- The subscriber's turns, one after the other.
abbrev pub turns : ℕ → List Move
turns zero = []
turns (suc n) = turn true ∷ turns n

-- The subscriber waits with the head delivered, or the task has sent an error and ended.
abbrev pub IsSettled : ℕ → Pump → Type 0
IsSettled head pump =
    ((pump.phase ≡ waiting) × (head ≤ pump.watermark))
    ⊎ ((e : Status) × (older : List (Result QuoteUpdate Status)) × (pump.phase ≡ ended)
        × (pump.sent ≡ err e ∷ older))

deliver-IsSettled :
    (head : ℕ) (chunk : List StoredEvent) (pump : Pump)
    → IsSettled head (deliver true head chunk pump)
deliver-IsSettled head [] pump = inl (refl, omega arith)
deliver-IsSettled head (e ∷ chunk) pump = inl (refl, omega arith)

module _ (codec : Codec) (q : String) (after : ℕ) where
  abbrev after_turn : World → World
  after_turn world = step codec q after world (turn true)

  -- An attempt settles the head, or there is one attempt less.
  abbrev IsReadOn : ℕ → ℕ → Pump → Type 0
  IsReadOn head left pump =
      IsSettled head pump
      ⊎ ((attempt : ℕ) × (w : Waiting) × (e : Option Status) × (pump.phase
            ≡ reading head left attempt w e))

  answer-IsReadOn :
      (head left attempt : ℕ) (w : Waiting) (pump : Pump)
      (p : Result (List StoredEvent) Status × Ledger)
      → IsReadOn head left (take_answer true head left attempt w pump p).0
  answer-IsReadOn head left attempt w pump (ok chunk, ledger) =
      inl (deliver-IsSettled head chunk pump)
  answer-IsReadOn head left attempt w pump (err e, ledger) = inr (_, _, _, refl)

  reading_turn :
      (head left attempt : ℕ) (w : Waiting) (e : Option Status) (world : World)
      → world.pump.phase ≡ reading head (suc left) attempt w e
      → IsReadOn head left (after_turn world).pump
  unfolding step take_turn turn_at read_chunk
  reading_turn head left attempt w e world at = rw at (
      answer-IsReadOn head left attempt w
        (record world.pump { phase = reading head (suc left) attempt w e })
        (attempt_load codec q world.pump.watermark head (count_retry attempt world.ledger)))

  last_turn :
      (head attempt : ℕ) (w : Waiting) (e : Option Status) (world : World)
      → world.pump.phase ≡ reading head zero attempt w e
      → IsSettled head (after_turn world).pump
  unfolding step take_turn turn_at read_chunk
  last_turn head attempt w e world at = rw at (inr (_, _, refl, refl))

  -- Within `n` turns the head is settled.
  abbrev pub SettlesIn : ℕ → ℕ → World → Type 0
  SettlesIn n head world =
      (k : ℕ) × (k ≤ n) × IsSettled head (run codec q after world (turns k)).pump

  one_turn :
      (n head : ℕ) (world : World)
      → SettlesIn n head (after_turn world)
      → SettlesIn (suc n) head world
  unfolding run
  one_turn n head world (k, few, settled) = (suc k, omega (arith, few), settled)

  at_once : (n head : ℕ) (world : World) → IsSettled head world.pump → SettlesIn n head world
  unfolding run
  at_once n head world settled = (zero, omega arith, settled)

  reading-SettlesIn :
      (head left attempt : ℕ) (w : Waiting) (e : Option Status) (world : World)
      → world.pump.phase ≡ reading head left attempt w e
      → SettlesIn (suc left) head world
  reading-SettlesIn head zero attempt w e world at =
      one_turn 0 head world (at_once 0 head _ (last_turn head attempt w e world at))
  reading-SettlesIn head (suc left) attempt w e world at =
      one_turn (suc left) head world (elim (reading_turn head left attempt w e world at) [
        | inl settled ↦ at_once (suc left) head _ settled
        | inr (attempt', w', e', at') ↦ reading-SettlesIn head left attempt' w' e' _ at'
      ])

  looking_turn :
      (world : World)
      → world.pump.phase ≡ looking
      → IsReadOn (borrow (channel_of world.ledger.bus q)) 8 (after_turn world).pump
  unfolding step take_turn turn_at
  looking_turn world at =
      rw at (elim (Bool-cases (ltb world.pump.watermark (borrow (channel_of world.ledger.bus q)))) [
        | inl more ↦ rw more (inr (_, _, _, refl))
        | inr nothing ↦ rw nothing (inl (inl (refl, ground arith)))
      ])

  looking-SettlesIn :
      (world : World)
      → world.pump.phase ≡ looking
      → SettlesIn 10 (borrow (channel_of world.ledger.bus q)) world
  looking-SettlesIn world at =
      let head = borrow (channel_of world.ledger.bus q) in
      one_turn 9 head world (elim (looking_turn world at) [
        | inl settled ↦ at_once 9 head _ settled
        | inr (attempt, w, e, at') ↦ reading-SettlesIn head 8 attempt w e _ at'
      ])

  waiting_turn :
      (world : World)
      → world.pump.phase ≡ waiting
      → world.pump.seen < length (channel_of world.ledger.bus q)
      → ((after_turn world).pump.phase ≡ looking) × ((after_turn world).ledger ≡ world.ledger)
  unfolding step take_turn turn_at
  waiting_turn world at unseen =
      let new : ltb world.pump.seen (length (channel_of world.ledger.bus q)) ≡ true =
        ground arith in
      rw at (rw new (refl, refl))

  -- A subscriber who waits when there is a send that it has not seen takes at most 11 turns, when
  -- nothing else moves and the client still receives, until it waits again with a watermark that
  -- is not below the head of its channel, or has sent an error and ended, whatever the engine
  -- does.
  pub waiting-SettlesIn :
      (world : World)
      → world.pump.phase ≡ waiting
      → world.pump.seen < length (channel_of world.ledger.bus q)
      → SettlesIn 11 (borrow (channel_of world.ledger.bus q)) world
  waiting-SettlesIn world at unseen =
      let (looks, same) = waiting_turn world at unseen in
      one_turn 10 (borrow (channel_of world.ledger.bus q)) world (
        subst (λ (l : Ledger). SettlesIn 10 (borrow (channel_of l.bus q)) (after_turn world)) same
          (looking-SettlesIn (after_turn world) looks))
