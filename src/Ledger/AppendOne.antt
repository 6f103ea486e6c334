-- ===== src/Ledger/AppendOne.antt =====
-- `LedgerInner::append_one` of src/ledger.rs.
pub mod Effects
pub mod Head
use quote_ledger.Common.{◌∷◌, String, Option, none, some, List, last, Result}
use quote_ledger.Wire.{QuoteCommand, StoredEvent, Status}
use quote_ledger.Mapping.{proto_command_to_domain}
use quote_ledger.Store.Codec.{Codec}
use quote_ledger.Ledger.State.{
  Ledger, LedgerM, pure, lift, ◌>>=◌, ◌>>◌, Metric, emit, db, publish_head, enter, leave,
}
use quote_ledger.Ledger.Closure.{append_closure}

-- `if let Some(last) = committed.last() { … }`
abbrev pub publish_last : String → Option StoredEvent → LedgerM (Unit {0})
publish_last q none = pure tt
publish_last q (some e) = publish_head q e.seq

-- The end of the scope: the guards are dropped in the reverse order of their declaration.
abbrev pub drop_guards : {A : Type 0} → Result A Status × Ledger → Result A Status × Ledger
drop_guards (r, ledger) =
    (r, leave (record ledger { metrics = Metric.append_one_duration ∷ ledger.metrics }))

module _ (codec : Codec) where
  -- The body between the guards.
  unfoldable pub append_guarded : String → String → QuoteCommand → LedgerM (List StoredEvent)
  append_guarded quote_id client_command_id cmd = do
    domain_cmd ← lift (proto_command_to_domain cmd)
    committed ← db (append_closure codec quote_id client_command_id domain_cmd)
    publish_last quote_id (last committed)
    emit Metric.append_one_commits
    pure committed

  unfoldable pub append_one : String → String → QuoteCommand → LedgerM (List StoredEvent)
  append_one quote_id client_command_id cmd ledger =
      drop_guards (append_guarded quote_id client_command_id cmd (enter ledger))
