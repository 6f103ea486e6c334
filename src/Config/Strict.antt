-- ===== src/Config/Strict.antt =====
-- Which environments strict mode lets through (src/config.rs).
use mathlib.Core.List.{Memᴰ}
use quote_ledger.Common.{◌≡◌, true, List}
use quote_ledger.Config.Env.{OsText, unicode, bytes, known_env_keys, is_scoped}

-- A name that is read as text, and that is known if it has one of the program's prefixes.
abbrev pub IsAllowed : OsText × OsText → Type 0
IsAllowed (unicode k, unicode v) = is_scoped k ≡ true → Memᴰ k known_env_keys
IsAllowed (unicode k, bytes) = ⊥
IsAllowed (bytes, v) = ⊥
