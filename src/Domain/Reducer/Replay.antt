-- ===== src/Domain/Reducer/Replay.antt =====
-- Replaying a history in parts (`replay` of src/domain/mod.rs).
use quote_ledger.Common.{◌≡◌, refl, List, [], ◌∷◌, ◌++◌, ◌>>=◌, Result-cases, inl, inr}
use quote_ledger.Domain.Model.{QuoteState, default_state, DomainEvent}
use quote_ledger.Domain.Reducer.{reduce, replay_from, replay}

pub replay_from-append :
    (s : QuoteState) (xs ys : List DomainEvent)
    → replay_from s (xs ++ ys) ≡ (replay_from s xs >>= λ s'. replay_from s' ys)
unfolding replay_from
replay_from-append s [] ys = refl
replay_from-append s (x ∷ xs) ys = elim (Result-cases (reduce s x)) [
  | inl (s', e) ↦ rw e (replay_from-append s' xs ys)
  | inr (_, e) ↦ rw e refl
]

-- Replaying a history that goes on is replaying its beginning and going on from the state reached,
-- and fails where the beginning fails.
pub replay-append :
    (xs ys : List DomainEvent) → replay (xs ++ ys) ≡ (replay xs >>= λ s. replay_from s ys)
unfolding replay
replay-append xs ys = replay_from-append default_state xs ys
