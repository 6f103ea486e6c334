-- ===== src/Ledger/Subscribe.antt =====
-- The opening of `subscribe_quote` of src/ledger.rs: what it reads in one go on the connection.
pub mod Opening
use quote_ledger.Common.{
  ℕ, String, Option, none, some, List, [], last, Result, map_err, ltb, if◌then◌else◌,
}
use quote_ledger.Domain.Model.{QuoteState}
use quote_ledger.Wire.{StoredEvent, StoreError, invalid_after_seq, QuoteView}
use quote_ledger.Mapping.{replay_stored_to_state, quote_state_to_view}
use quote_ledger.Store.Engine.{StoreM, pure, fail, lift, ◌>>=◌}
use quote_ledger.Store.Codec.{Codec}
use quote_ledger.Store.Append.{load_stored_events, load_stored_events_between}

pub record Init : Type 0 where
  pub last_seq : ℕ
  pub view : QuoteView
  pub catchup : List StoredEvent

-- `all.last().map(|e| e.seq).unwrap_or(0)`
abbrev pub seq_or_zero : Option StoredEvent → ℕ
seq_or_zero none = 0
seq_or_zero (some e) = e.seq

module _ (codec : Codec) (quote_id : String) (after : ℕ) where
  unfoldable pub load_catchup : ℕ → StoreM (List StoredEvent)
  load_catchup last =
      if ltb after last then load_stored_events_between codec quote_id after last else pure []

  -- What follows the test of `after`.
  unfoldable pub open_at : List StoredEvent → ℕ → StoreM Init
  open_at all last = do
    state ← lift (replay_stored_to_state all)
    view ← lift (map_err StoreError.domain (quote_state_to_view quote_id state))
    catchup ← load_catchup last
    pure (record { last_seq = last; view = view; catchup = catchup })

  unfoldable pub open_from : List StoredEvent → ℕ → StoreM Init
  open_from all last =
      if ltb last after then fail (invalid_after_seq after last) else open_at all last

  -- The closure that `subscribe_quote` runs on the connection.
  unfoldable pub open_subscription : StoreM Init
  open_subscription = do
    all ← load_stored_events codec quote_id
    open_from all (seq_or_zero (last all))
