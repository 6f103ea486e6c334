-- ===== src/Ledger/Identifier/Accepts.antt =====
-- Which identifiers `validate_identifier` of src/ledger.rs lets through.
use Prim.Native.String.{[] as empty, ◌∷◌ as ◌∷ₛ◌}
use quote_ledger.Common.{String}
