-- ===== src/Ledger/Service.antt =====
-- How src/ledger.rs makes its service: `LedgerInner::new` and `LedgerService`.
use quote_ledger.Common.{ℕ, List, [], Result}
use quote_ledger.Wire.{AppendCommandsResponse, Status}
use quote_ledger.Config.Service.{ReliabilityLimits}
use quote_ledger.Store.Engine.{Connection}
use quote_ledger.Store.Codec.{Codec}
use quote_ledger.Ledger.State.{Ledger}
use quote_ledger.Ledger.AppendCommands.{Frame, append_commands}

abbrev pub default_append_idle_timeout_ms : ℕ
default_append_idle_timeout_ms = 10_000

abbrev pub default_append_max_commands : ℕ
default_append_max_commands = 512

-- `ReliabilityLimits::default`
abbrev pub default_limits : ReliabilityLimits
default_limits = record {
  append_idle_timeout = default_append_idle_timeout_ms;
  append_max_commands = default_append_max_commands;
}

-- `LedgerInner::new`, with no metrics recorded.
abbrev pub new_inner : Connection → Ledger
new_inner conn = record { conn = conn; bus = []; in_flight = 0; metrics = [] }

pub record LedgerService : Type 0 where
  pub inner : Ledger
  pub reliability : ReliabilityLimits

abbrev pub with_reliability : Connection → ReliabilityLimits → LedgerService
with_reliability conn reliability = record { inner = new_inner conn; reliability = reliability }

abbrev pub new_service : Connection → LedgerService
new_service conn = with_reliability conn default_limits

-- `in_flight_appends`, and what a holder of `in_flight_counter` reads.
abbrev pub in_flight_appends : LedgerService → ℕ
in_flight_appends service = service.inner.in_flight

-- The service's `append_commands`: the loop with the limit of the service.
abbrev pub serve_append_commands :
    Codec → List Frame → LedgerService → Result AppendCommandsResponse Status × LedgerService
serve_append_commands codec frames service =
    let (r, inner) =
      append_commands codec service.reliability.append_max_commands frames service.inner in
    (r, record service { inner = inner })
