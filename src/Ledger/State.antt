-- ===== src/Ledger/State.antt =====
-- The state behind `LedgerInner` of src/ledger.rs: the connection, the bus of heads, the in-flight
-- counter, and the metrics that have been recorded, the latest first. The actions on it are the
-- methods; `?` is the bind of a `do` block.
use quote_ledger.Common.{
  arith, zero, refl, inr, inl, Bool-cases, ◌≡◌, suc, ◌==◌, ℕ, ◌+◌, ◌-◌, String, Option, none, some,
  List, [], ◌∷◌, Result, ok, err, map_err, str_eq, if◌then◌else◌,
}
use quote_ledger.Wire.{Status}
use quote_ledger.Mapping.{store_error_to_status}
use quote_ledger.Store.Engine.{Connection, StoreM}

-- The values sent on a watch channel, the latest first; a receiver borrows the latest.
abbrev pub Channel : Type 0
Channel = List ℕ

-- `HashMap<String, watch::Sender<u64>>`
abbrev pub Bus : Type 0
Bus = List (String × Channel)

pub data Metric : Type 0 where
  in_flight_appends : ℕ → Metric
  append_one_duration append_one_commits : Metric
  append_commands_streams : String → Metric
  append_commands_stream_duration subscribe_streams : Metric
  subscribe_db_retries subscribe_db_load_failures subscribe_stream_terminal_errors : Metric

pub record Ledger : Type 0 where
  pub conn : Connection
  pub bus : Bus
  pub in_flight : ℕ
  pub metrics : List Metric

abbrev pub LedgerM : Type 0 → Type 0
LedgerM A = Ledger → Result A Status × Ledger

module _ {A : Type 0} where
  abbrev pub pure : A → LedgerM A
  pure a ledger = (ok a, ledger)

  abbrev pub fail : Status → LedgerM A
  fail s ledger = (err s, ledger)

  abbrev pub lift : Result A Status → LedgerM A
  lift r ledger = (r, ledger)

abbrev pub continue :
    {A B : Type 0} → (A → LedgerM B) → Result A Status × Ledger → Result B Status × Ledger
continue f (ok a, ledger) = f a ledger
continue f (err e, ledger) = (err e, ledger)

infixl 5 ◌>>=◌ ◌>>◌
abbrev pub ◌>>=◌ : {A B : Type 0} → LedgerM A → (A → LedgerM B) → LedgerM B
◌>>=◌ m f ledger = continue f (m ledger)

abbrev pub ◌>>◌ : {A B : Type 0} → LedgerM A → LedgerM B → LedgerM B
m >> k = m >>= λ _. k

-- `counter!(…).increment(1)`, `gauge!(…).set(…)` and `histogram!(…).record(…)`
abbrev pub emit : Metric → LedgerM (Unit {0})
emit metric ledger = (ok tt, record ledger { metrics = metric ∷ ledger.metrics })

-- `LedgerInner::db`: the closure runs alone, under the connection's mutex.
unfoldable pub db : {A : Type 0} → StoreM A → LedgerM A
db f ledger =
    let (r, conn) = f ledger.conn in
    (map_err store_error_to_status r, record ledger { conn = conn })

-- `m.entry(q).or_insert_with(|| watch::channel(head).0)` and `tx.send_replace(head)`.
unfoldable pub send_head : Bus → String → ℕ → Bus
send_head [] q head = (q, head ∷ head ∷ []) ∷ []
send_head ((j, sent) ∷ bus) q head =
    if str_eq j q then (j, head ∷ sent) ∷ bus else (j, sent) ∷ send_head bus q head

-- `*rx.borrow()` of the quote's channel.
unfoldable pub head_of : Bus → String → Option ℕ
head_of [] q = none
head_of ((j, sent) ∷ bus) q =
    if str_eq j q then elim sent [ [] ↦ none | head ∷ _ ↦ some head ] else head_of bus q

unfoldable pub publish_head : String → ℕ → LedgerM (Unit {0})
publish_head q head ledger = (ok tt, record ledger { bus = send_head ledger.bus q head })

-- The largest `usize`.
abbrev pub usize_max : ℕ
usize_max = 18_446_744_073_709_551_615

-- `fetch_add(1, …)` and `fetch_sub(1, …)` of an `AtomicUsize`, which wrap around.
abbrev pub fetch_add : ℕ → ℕ
fetch_add n = if n == usize_max then 0 else suc n

abbrev pub fetch_sub : ℕ → ℕ
fetch_sub zero = usize_max
fetch_sub (suc n) = n

pub fetch_sub-fetch_add : (n : ℕ) → fetch_sub (fetch_add n) ≡ n
fetch_sub-fetch_add n = elim (Bool-cases (n == usize_max)) [
  | inl last ↦ let same : n ≡ usize_max = ground (arith, last) in rw (last, same) refl
  | inr below ↦ rw below refl
]

-- `InFlightGuard::enter`
unfoldable pub enter : Ledger → Ledger
enter ledger = record ledger {
  in_flight = fetch_add ledger.in_flight;
  metrics = in_flight_appends (ledger.in_flight + 1) ∷ ledger.metrics;
}

-- `InFlightGuard::drop`
unfoldable pub leave : Ledger → Ledger
leave ledger = record ledger {
  in_flight = fetch_sub ledger.in_flight;
  metrics = in_flight_appends (ledger.in_flight - 1) ∷ ledger.metrics;
}
