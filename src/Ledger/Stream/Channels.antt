-- ===== src/Ledger/Stream/Channels.antt =====
-- What sending a head does to the channels of the bus (src/ledger.rs).
use quote_ledger.Common.{
  ℕ, ◌<◌, ◌≡◌, refl, String, true, false, [], ◌∷◌, length, Bool-cases, inl, inr, arith, str_eq,
  eq_iff,
}
use quote_ledger.Ledger.State.{Bus, send_head}
use quote_ledger.Ledger.Stream.{channel_of, borrow}

-- The quote's channel has the new head on top and has grown.
pub channel_of-send_head :
    (bus : Bus) (q : String) (n : ℕ)
    → (borrow (channel_of (send_head bus q n) q) ≡ n)
      × (length (channel_of bus q) < length (channel_of (send_head bus q n) q))
unfolding channel_of send_head
channel_of-send_head [] q n =
    let same : str_eq q q ≡ true = (eq_iff q q).1 refl in rw same (refl, omega arith)
channel_of-send_head ((j, sent) ∷ bus) q n = elim (Bool-cases (str_eq j q)) [
  | inl same ↦ rw same (rw same (refl, omega arith))
  | inr other ↦ rw other (rw other (channel_of-send_head bus q n))
]

pub channel_of-send_head_other :
    (bus : Bus) (q j : String) (n : ℕ)
    → str_eq q j ≡ false
    → channel_of (send_head bus q n) j ≡ channel_of bus j
unfolding channel_of send_head
channel_of-send_head_other [] q j n other = rw other refl
channel_of-send_head_other ((k, sent) ∷ bus) q j n other = elim (Bool-cases (str_eq k q)) [
  | inl same ↦
      let unlike : str_eq k j ≡ false = rw ((eq_iff k q).0 same) other in rw same (rw unlike refl)
  | inr differ ↦ rw differ (elim (Bool-cases (str_eq k j)) [
    | inl this ↦ rw this refl
    | inr that ↦ rw that (channel_of-send_head_other bus q j n other)
  ])
]
