-- ===== src/Config/Says.antt =====
-- What the process's variables and arguments say, independently of how src/config.rs reads them: each
-- kind of setting as a relation between a variable and a value, and that the readers give just that.
use quote_ledger.Common.{
  Ensures-at, Ensures-bind, Ensures-refuse_if, ℕ, ◌≤◌, ◌≡◌, ◌↔◌, refl, sym, String, Bool, true,
  false, ◌||◌, ◌==◌, Option, none, some, List, [], ◌∷◌, ok, ok_or, map_err, map_err-eq-ok, arith,
}
use quote_ledger.Common.Text.{is_empty, trim}
use quote_ledger.Auth.{EnvVar, present, not_present, not_unicode, eq_ignore_ascii_case}
use quote_ledger.Config.Env.{
  OsText, unicode, bytes, ConfigError, u64_limit, u32_limit, parse, read_u64, read_bool,
  read_opt_nonzero_u32, read_opt_path, not_a_number, invalid_integer, empty_value, below_one,
}
use quote_ledger.Config.Service.{var_or, listen_addr}

-- A text that stands as it is written; one that is no UTF-8 counts as not set.
abbrev pub SaysText : EnvVar → (default t : String) → Type 0
SaysText (present v) default t = t ≡ v
SaysText not_present default t = t ≡ default
SaysText not_unicode default t = t ≡ default

-- A number of at most 64 bits.
abbrev pub SaysNumber : EnvVar → (default n : ℕ) → Type 0
SaysNumber (present v) default n = parse u64_limit v ≡ ok n
SaysNumber not_present default n = n ≡ default
SaysNumber not_unicode default n = ⊥

-- A number of at most 32 bits that is not 0, with spaces around it, or none.
abbrev pub SaysRate : EnvVar → Option ℕ → Type 0
SaysRate (present v) none = ⊥
SaysRate (present v) (some n) =
    (is_empty (trim v) ≡ false) × (parse u32_limit (trim v) ≡ ok n) × (1 ≤ n)
SaysRate not_present rate = rate ≡ none
SaysRate not_unicode rate = ⊥

-- A path without the spaces around it, or none.
abbrev pub SaysPath : EnvVar → Option String → Type 0
SaysPath (present v) path = (is_empty (trim v) ≡ false) × (path ≡ some (trim v))
SaysPath not_present path = path ≡ none
SaysPath not_unicode path = ⊥

-- One of these words, in any case.
abbrev pub is_word : List String → String → Bool
is_word [] t = false
is_word (word ∷ words) t = eq_ignore_ascii_case t word || is_word words t

abbrev yes_words : List String
yes_words = "1" ∷ "true" ∷ "yes" ∷ "on" ∷ []

abbrev no_words : List String
no_words = "0" ∷ "false" ∷ "no" ∷ "off" ∷ []

-- A word for yes or for no.
abbrev pub SaysSwitch : EnvVar → (default b : Bool) → Type 0
SaysSwitch (present v) default true = is_word yes_words (trim v) ≡ true
SaysSwitch (present v) default false =
    (is_word yes_words (trim v) ≡ false) × (is_word no_words (trim v) ≡ true)
SaysSwitch not_present default b = b ≡ default
SaysSwitch not_unicode default b = ⊥

-- The address to listen at: the first argument after the program's name, or the default.
abbrev pub SaysArgument : List OsText → String → Type 0
SaysArgument [] t = t ≡ "127.0.0.1:50051"
SaysArgument (bytes ∷ args) t = ⊥
SaysArgument (unicode program ∷ []) t = t ≡ "127.0.0.1:50051"
SaysArgument (unicode program ∷ bytes ∷ args) t = ⊥
SaysArgument (unicode program ∷ unicode listen ∷ args) t = t ≡ listen

-- The variable, or the argument where it is not set.
abbrev pub SaysListen : EnvVar → List OsText → String → Type 0
SaysListen (present v) args t = t ≡ v
SaysListen not_present args t = SaysArgument args t
SaysListen not_unicode args t = ⊥

pub var_or-SaysText : (v : EnvVar) (default : String) → SaysText v default (var_or default v)
var_or-SaysText (present v) default = refl
var_or-SaysText not_present default = refl
var_or-SaysText not_unicode default = refl

pub SaysText-unique :
    (v : EnvVar) (default t : String) → SaysText v default t → var_or default v ≡ t
SaysText-unique (present v) default t says = sym says
SaysText-unique not_present default t says = sym says
SaysText-unique not_unicode default t says = sym says

pub read_u64-SaysNumber :
    (name : String) (default : ℕ) (v : EnvVar) (n : ℕ)
    → (read_u64 name default v ≡ ok n) ↔ SaysNumber v default n
read_u64-SaysNumber name default (present v) n =
    (λ same. map_err-eq-ok (not_a_number name) _ same, λ says. rw says refl)
read_u64-SaysNumber name default not_present n = (λ same. cc same, λ says. cc says)
read_u64-SaysNumber name default not_unicode n = (λ same. cc same, λ says. absurd says)

pub read_path-SaysPath :
    (name : String) (v : EnvVar) (path : Option String)
    → (read_opt_path name v ≡ ok path) ↔ SaysPath v path
read_path-SaysPath name (present v) path = (
  λ same.
      Ensures-at (SaysPath (present v)) (read_opt_path name (present v))
        (Ensures-refuse_if (SaysPath (present v)) (is_empty (trim v)) (empty_value name) _
          (λ filled. (filled, refl)))
        same,
  λ (filled, says). rw (filled, says) refl,
)
read_path-SaysPath name not_present path = (λ same. cc same, λ says. cc says)
read_path-SaysPath name not_unicode path = (λ same. cc same, λ says. absurd says)

pub read_rate-SaysRate :
    (name : String) (v : EnvVar) (rate : Option ℕ)
    → (read_opt_nonzero_u32 name v ≡ ok rate) ↔ SaysRate v rate
read_rate-SaysRate name (present v) rate = (
  λ same.
      Ensures-at (SaysRate (present v)) (read_opt_nonzero_u32 name (present v))
        (Ensures-refuse_if (SaysRate (present v)) (is_empty (trim v)) (empty_value name) _
          (λ filled.
            Ensures-bind (SaysRate (present v)) (map_err (invalid_integer name) _) _ (λ n parsed.
              Ensures-refuse_if (SaysRate (present v)) (n == 0) (below_one name) (ok (some n))
                (λ positive. (
                  filled,
                  map_err-eq-ok (invalid_integer name) _ parsed,
                  ground (arith, positive),
                )))))
        same,
  back rate,
)
  where
    back :
        (rate : Option ℕ)
        → SaysRate (present v) rate
        → read_opt_nonzero_u32 name (present v) ≡ ok rate
    back none says = absurd says
    back (some n) (filled, parsed, least) =
        let positive : (n == 0) ≡ false = ground (arith, least) in
        rw (filled, parsed, positive) refl
read_rate-SaysRate name not_present rate = (λ same. cc same, λ says. cc says)
read_rate-SaysRate name not_unicode rate = (λ same. cc same, λ says. absurd says)

pub read_bool-SaysSwitch :
    (name : String) (default : Bool) (v : EnvVar) (b : Bool)
    → (read_bool name default v ≡ ok b) ↔ SaysSwitch v default b
read_bool-SaysSwitch name default (present v) true = ground arith
read_bool-SaysSwitch name default (present v) false = ground arith
read_bool-SaysSwitch name default not_present b = (λ same. cc same, λ says. cc says)
read_bool-SaysSwitch name default not_unicode b = (λ same. cc same, λ says. absurd says)

module _ {Addr : Type 0} (parse_addr : String → Option Addr) where
  pub ok_or-some :
      (e : ConfigError) (o : Option Addr) (a : Addr) → (ok_or e o ≡ ok a) ↔ (o ≡ some a)
  ok_or-some e none a = (λ same. cc same, λ same. cc same)
  ok_or-some e (some b) a = (λ same. cc same, λ same. cc same)

  -- The text that the address is read from.
  abbrev pub ListensAt : EnvVar → List OsText → Addr → Type 0
  ListensAt v args addr = (t : String) × SaysListen v args t × (parse_addr t ≡ some addr)

  read_listen :
      (args : List OsText) (v : EnvVar) (addr : Addr)
      → listen_addr parse_addr args v ≡ ok addr
      → ListensAt v args addr
  read_listen args (present v) addr same = (v, refl, (ok_or-some _ _ addr).0 same)
  read_listen [] not_present addr same = (_, refl, (ok_or-some _ _ addr).0 same)
  read_listen (bytes ∷ args) not_present addr same = absurd (cc same)
  read_listen (unicode program ∷ []) not_present addr same = (_, refl, (ok_or-some _ _ addr).0 same)
  read_listen (unicode program ∷ bytes ∷ args) not_present addr same = absurd (cc same)
  read_listen (unicode program ∷ unicode listen ∷ args) not_present addr same =
      (listen, refl, (ok_or-some _ _ addr).0 same)
  read_listen args not_unicode addr same = absurd (cc same)

  listen_read :
      (args : List OsText) (v : EnvVar) (addr : Addr)
      → ListensAt v args addr
      → listen_addr parse_addr args v ≡ ok addr
  listen_read args (present v) addr (t, says, found) = rw (← says, found) refl
  listen_read [] not_present addr (t, says, found) = rw (← says, found) refl
  listen_read (bytes ∷ args) not_present addr (t, says, found) = absurd says
  listen_read (unicode program ∷ []) not_present addr (t, says, found) = rw (← says, found) refl
  listen_read (unicode program ∷ bytes ∷ args) not_present addr (t, says, found) = absurd says
  listen_read (unicode program ∷ unicode listen ∷ args) not_present addr (t, says, found) =
      rw (← says, found) refl
  listen_read args not_unicode addr (t, says, found) = absurd says

  pub listen_addr-ListensAt :
      (args : List OsText) (v : EnvVar) (addr : Addr)
      → (listen_addr parse_addr args v ≡ ok addr) ↔ ListensAt v args addr
  listen_addr-ListensAt args v addr = (read_listen args v addr, listen_read args v addr)
