-- ===== src/Common/Chains.antt =====
-- What is true of the good end of a chain of results.
use mathlib.Core.Path.{◌≡◌, refl, subst}
use mathlib.Core.Bool.{Bool, true, false}
use quote_ledger.Common.Outcome.{Result, ok, err, ◌>>=◌, ◌>>◌, map_err, refuse_if}

-- A good end is as `P` says.
abbrev pub Ensures : {A E : Type 0} → (A → Type 0) → Result A E → Type 0
Ensures P (ok a) = P a
Ensures P (err e) = Unit

module _ {A E : Type 0} where
  pub Ensures-at : (P : A → Type 0) (r : Result A E) {a : A} → Ensures P r → r ≡ ok a → P a
  Ensures-at P (ok b) holds same = subst P (cc same) holds
  Ensures-at P (err e) holds same = absurd (cc same)

  pub Ensures-map_err :
      {F : Type 0} (P : A → Type 0) (f : E → F) (r : Result A E)
      → Ensures P r
      → Ensures P (map_err f r)
  Ensures-map_err P f (ok a) holds = holds
  Ensures-map_err P f (err e) holds = tt

-- What follows a good end.
pub Ensures-bind :
    {A B E : Type 0} (P : B → Type 0) (r : Result A E) (f : A → Result B E)
    → ((a : A) → r ≡ ok a → Ensures P (f a))
    → Ensures P (r >>= f)
Ensures-bind P (ok a) f next = next a refl
Ensures-bind P (err e) f next = tt

pub Ensures-refuse_if :
    {B E : Type 0} (P : B → Type 0) (test : Bool) (e : E) (r : Result B E)
    → (test ≡ false → Ensures P r)
    → Ensures P (refuse_if test e >> r)
Ensures-refuse_if P true e r next = tt
Ensures-refuse_if P false e r next = next refl
