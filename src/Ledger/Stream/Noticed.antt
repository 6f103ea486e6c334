-- ===== src/Ledger/Stream/Noticed.antt =====
-- No head that is sent on the bus of src/ledger.rs goes unnoticed by a subscriber who waits.
use quote_ledger.Common.{
  ℕ, ◌<◌, ◌≤◌, ◌≡◌, refl, subst, String, List, [], ◌∷◌, length, last, Option-cases, Result-cases,
  Bool-cases, inl, inr, str_eq, eq_iff, arith,
}
use quote_ledger.Wire.{StoredEvent}
use quote_ledger.Store.Codec.{Codec}
use quote_ledger.Ledger.State.{Ledger, Bus, Channel, db, leave, send_head, publish_head}
use quote_ledger.Ledger.Identifier.{validate_identifier}
use quote_ledger.Ledger.Stream.{
  Phase, opening, refused, opened, joined, caught, looking, waiting, reading, ended, Pump,
  channel_of, borrow, open_read,
}
use quote_ledger.Ledger.Stream.World.{
  Pending, entered, leaving, leave_scope, appended, opened as opened_other, finish, complete,
  complete_all,
}
use quote_ledger.Ledger.Stream.Channels.{channel_of-send_head, channel_of-send_head_other}

-- What has not been noticed can be: when all sends have been seen, the latest is not past what the
-- subscriber has or reads.
abbrev pub PhaseNoticed : Phase → Channel → (watermark seen : ℕ) → Type 0
PhaseNoticed waiting sent watermark seen = seen ≡ length sent → borrow sent ≤ watermark
PhaseNoticed (reading head left attempt w e) sent watermark seen =
    seen ≡ length sent → borrow sent ≤ head
PhaseNoticed opening sent watermark seen = Unit
PhaseNoticed (refused e) sent watermark seen = Unit
PhaseNoticed (opened init) sent watermark seen = Unit
PhaseNoticed (joined init) sent watermark seen = Unit
PhaseNoticed (caught init) sent watermark seen = Unit
PhaseNoticed looking sent watermark seen = Unit
PhaseNoticed ended sent watermark seen = Unit

abbrev pub IsNoticed : Channel → Pump → Type 0
IsNoticed sent pump =
    (pump.seen ≤ length sent) × PhaseNoticed pump.phase sent pump.watermark pump.seen

longer-PhaseNoticed :
    (phase : Phase) (sent sent' : Channel) (watermark seen : ℕ)
    → seen < length sent'
    → PhaseNoticed phase sent' watermark seen
longer-PhaseNoticed waiting sent sent' watermark seen longer =
    λ all. absurd (omega (arith, longer, all))
longer-PhaseNoticed (reading head left attempt w e) sent sent' watermark seen longer =
    λ all. absurd (omega (arith, longer, all))
longer-PhaseNoticed opening sent sent' watermark seen longer = tt
longer-PhaseNoticed (refused e) sent sent' watermark seen longer = tt
longer-PhaseNoticed (opened init) sent sent' watermark seen longer = tt
longer-PhaseNoticed (joined init) sent sent' watermark seen longer = tt
longer-PhaseNoticed (caught init) sent sent' watermark seen longer = tt
longer-PhaseNoticed looking sent sent' watermark seen longer = tt
longer-PhaseNoticed ended sent sent' watermark seen longer = tt

-- A head that is sent, on any quote's channel.
pub send_head-IsNoticed :
    (bus : Bus) (j q : String) (n : ℕ) (pump : Pump)
    → IsNoticed (channel_of bus q) pump
    → IsNoticed (channel_of (send_head bus j n) q) pump
send_head-IsNoticed bus j q n pump (few, noticed) = elim (Bool-cases (str_eq j q)) [
  | inl same ↦
      let longer : length (channel_of bus q) < length (channel_of (send_head bus j n) q) =
        subst (λ k. length (channel_of bus k) < length (channel_of (send_head bus j n) k))
          ((eq_iff j q).0 same) (channel_of-send_head bus j n).1 in
      (
        omega (arith, few, longer),
        longer-PhaseNoticed pump.phase [] _ pump.watermark pump.seen (omega (arith, few, longer)),
      )
  | inr other ↦ rw (channel_of-send_head_other bus j q n other) (few, noticed)
]

module _ (q : String) (pump : Pump) where
  finish-IsNoticed :
      (j : String) (committed : List StoredEvent) (ledger : Ledger)
      → IsNoticed (channel_of ledger.bus q) pump
      → IsNoticed (channel_of (finish j committed ledger).bus q) pump
  unfolding finish publish_head
  finish-IsNoticed j committed ledger noticed = elim (Option-cases (last committed)) [
    | inl nothing ↦ rw (finish, nothing) noticed
    | inr (e, newest) ↦ rw (finish, newest) (send_head-IsNoticed ledger.bus j q e.seq pump noticed)
  ]

  pub complete_all-IsNoticed :
      (pending : List Pending) (ledger : Ledger)
      → IsNoticed (channel_of ledger.bus q) pump
      → IsNoticed (channel_of (complete_all pending ledger).bus q) pump
  unfolding publish_head leave
  complete_all-IsNoticed [] ledger noticed = noticed
  complete_all-IsNoticed (entered ∷ pending) ledger noticed =
      complete_all-IsNoticed pending ledger noticed
  complete_all-IsNoticed (leaving ∷ pending) ledger noticed =
      complete_all-IsNoticed pending (leave_scope ledger) noticed
  complete_all-IsNoticed (appended j committed ∷ pending) ledger noticed =
      complete_all-IsNoticed pending (finish j committed ledger)
        (finish-IsNoticed j committed ledger noticed)
  complete_all-IsNoticed (opened_other j init ∷ pending) ledger noticed =
      complete_all-IsNoticed pending (complete (opened_other j init) ledger)
        (send_head-IsNoticed ledger.bus j q init.last_seq pump noticed)

pub open_read_bus :
    (codec : Codec) (q : String) (after : ℕ) (ledger : Ledger)
    → (open_read codec q after ledger).1.bus ≡ ledger.bus
unfolding open_read db
open_read_bus codec q after ledger = elim (Result-cases (validate_identifier "quote_id" q)) [
  | inl (_, valid) ↦ rw valid refl
  | inr (e, bad) ↦ rw bad refl
]
