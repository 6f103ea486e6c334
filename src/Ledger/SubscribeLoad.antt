-- ===== src/Ledger/SubscribeLoad.antt =====
-- `subscribe_load_between` of src/ledger.rs: the reads of a subscription, tried again when they fail.
pub mod Retried
use quote_ledger.Common.{
  ℕ, zero, suc, ◌+◌, ◌*◌, String, Option, none, some, List, [], ◌∷◌, ◌++◌, Result, ok, err, ltb,
  if◌then◌else◌,
}
use quote_ledger.Wire.{StoredEvent, Status, Code, Message}
use quote_ledger.Mapping.{status}
use quote_ledger.Store.Codec.{Codec}
use quote_ledger.Store.Append.{load_stored_events_between}
use quote_ledger.Ledger.State.{Ledger, Metric, db}

abbrev pub subscribe_db_max_attempts : ℕ
subscribe_db_max_attempts = 8

abbrev pub subscribe_db_backoff_start_ms : ℕ
subscribe_db_backoff_start_ms = 10

abbrev pub subscribe_db_backoff_cap_ms : ℕ
subscribe_db_backoff_cap_ms = 500

-- The variables of the loop: the next wait, and the waits that have been taken.
pub record Waiting : Type 0 where
  pub backoff_ms : ℕ
  pub slept : List ℕ

-- The wait doubles up to its cap, far below the limit of a `u64`.
abbrev pub next_backoff : ℕ → ℕ
next_backoff ms =
    if ltb (ms * 2) subscribe_db_backoff_cap_ms then ms * 2 else subscribe_db_backoff_cap_ms

abbrev pub count : Metric → Ledger → Ledger
count metric ledger = record ledger { metrics = metric ∷ ledger.metrics }

-- `if attempt > 0 { … }`
abbrev pub wait : ℕ → Waiting → Waiting
wait zero w = w
wait (suc attempt) w = record {
  backoff_ms = next_backoff w.backoff_ms;
  slept = w.slept ++ w.backoff_ms ∷ [];
}

abbrev pub count_retry : ℕ → Ledger → Ledger
count_retry zero ledger = ledger
count_retry (suc attempt) ledger = count Metric.subscribe_db_retries ledger

-- `last_err.unwrap_or_else(…)`
abbrev pub last_or_internal : Option Status → Status
last_or_internal none = status Code.internal (Message.text "subscribe db load failed")
last_or_internal (some e) = e

-- The answer, the waits and the ledger.
abbrev pub Loaded : Type 0
Loaded = Result (List StoredEvent) Status × Waiting × Ledger

module _ (codec : Codec) (quote_id : String) (after upto : ℕ) where
  abbrev pub attempt_load : Ledger → Result (List StoredEvent) Status × Ledger
  attempt_load = db (load_stored_events_between codec quote_id after upto)

  -- The `match` on an attempt, with what follows a failed one.
  abbrev pub or_again :
      (Status → Ledger → Loaded) → Waiting → Result (List StoredEvent) Status × Ledger → Loaded
  or_again again w (ok events, ledger) = (ok events, w, ledger)
  or_again again w (err e, ledger) = again e (count Metric.subscribe_db_load_failures ledger)

  -- `left` attempts are left after `attempt` of them.
  unfoldable pub load_attempts : (left attempt : ℕ) → Waiting → Option Status → Ledger → Loaded
  load_attempts zero attempt w last_err ledger =
      (err (last_or_internal last_err), w, count Metric.subscribe_stream_terminal_errors ledger)
  load_attempts (suc left) attempt w last_err ledger =
      or_again (λ e. load_attempts left (suc attempt) (wait attempt w) (some e)) (wait attempt w)
        (attempt_load (count_retry attempt ledger))

  unfoldable pub subscribe_load_between : Ledger → Loaded
  subscribe_load_between ledger =
      load_attempts subscribe_db_max_attempts 0
        (record { backoff_ms = subscribe_db_backoff_start_ms; slept = [] }) none ledger
