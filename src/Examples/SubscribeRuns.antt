-- ===== src/Examples/SubscribeRuns.antt =====
-- Opening a subscription on the database of two events (src/ledger.rs).
use quote_ledger.Common.{◌≡◌, refl, arith, [], ◌∷◌, ok}
use quote_ledger.Domain.Model.{QuoteState}
use quote_ledger.Domain.Reducer.{replay}
use quote_ledger.Wire.{QuoteView}
use quote_ledger.Mapping.{quote_state_to_view}
use quote_ledger.Mapping.RoundTrip.{stored_event}
use quote_ledger.Store.Runs.{Runs}
use quote_ledger.Common.{true}
use quote_ledger.Ledger.State.{Ledger}
use quote_ledger.Ledger.SubscribeLoad.{subscribe_load_between}
use quote_ledger.Ledger.SubscribeLoad.Retried.{IsLoaded, subscribe_load_between_lem}
use quote_ledger.Ledger.Subscribe.{open_subscription}
use quote_ledger.Ledger.Subscribe.Opening.{open_subscription_reads}
use quote_ledger.Examples.PlainCodec.{plain_codec, plain_codec-IsLossless}
use quote_ledger.Examples.Quotes.{created, added_desk}
use quote_ledger.Examples.Database.{
  two_events, two_history, two_domain, two_rows, two_events-IsSound, two_rows, created_event,
  added_event,
}

open_subscription_reads_example :
    (s : QuoteState) × (view : QuoteView) × (replay (created ∷ added_desk ∷ []) ≡ ok s)
    × (quote_state_to_view "q-1" s ≡ ok view)
    × Runs
        (open_subscription plain_codec "q-1" 1)
        two_events
        (ok (record { last_seq = 2; view = view; catchup = stored_event "q-1" 2 added_event ∷ [] }))
        two_events
open_subscription_reads_example =
    open_subscription_reads plain_codec plain_codec-IsLossless two_events two_history two_domain
      two_events-IsSound "q-1" (created_event ∷ []) (added_event ∷ []) refl (omega arith)

-- The first two attempts fail.
abbrev shaky : Ledger
shaky = record {
  conn = record { db = two_events; faults = true ∷ true ∷ [] };
  bus = [];
  in_flight = 0;
  metrics = [];
}

subscribe_load_between_example :
    IsLoaded two_events
      (stored_event "q-1" 2 added_event ∷ [])
      7
      (subscribe_load_between plain_codec "q-1" 1 2 shaky)
subscribe_load_between_example =
    subscribe_load_between_lem plain_codec plain_codec-IsLossless "q-1" (created_event ∷ [])
      (added_event ∷ []) [] shaky (two_rows "q-1") (omega arith)
