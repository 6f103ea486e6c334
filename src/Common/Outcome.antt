-- ===== src/Common/Outcome.antt =====
-- Rust's `Result`: the operator `?` is the bind of a `do` block, and `map_err` converts an error.
use mathlib.Core.Path.{◌≡◌, refl}
use mathlib.Core.Logic.{◌⊎◌, inl, inr}
use mathlib.Core.Bool.{Bool, true, false}
use mathlib.Core.Option.{Option, none, some}

pub data Result {ℓ} (A E : Type ℓ) : Type ℓ where
  ok : A → Result A E
  err : E → Result A E

infixl 5 ◌>>=◌ ◌>>◌
abbrev pub ◌>>=◌ {ℓ} : {A B E : Type ℓ} → Result A E → (A → Result B E) → Result B E
ok a >>= f = f a
err e >>= f = err e

abbrev pub ◌>>◌ {ℓ} : {A B E : Type ℓ} → Result A E → Result B E → Result B E
m >> k = m >>= λ _. k

-- `if test { return Err(e); }`
abbrev pub refuse_if {ℓ} : {E : Type ℓ} → Bool → E → Result (Unit {ℓ}) E
refuse_if true e = err e
refuse_if false e = ok tt

module _ {ℓ} {A E : Type ℓ} where
  abbrev pub ok_or : E → Option A → Result A E
  ok_or e none = err e
  ok_or e (some a) = ok a

  abbrev pub is_ok : Result A E → Bool
  is_ok (ok a) = true
  is_ok (err e) = false

  pub Result-cases : (r : Result A E) → ((a : A) × (r ≡ ok a)) ⊎ ((e : E) × (r ≡ err e))
  Result-cases (ok a) = inl (a, refl)
  Result-cases (err e) = inr (e, refl)

abbrev pub map_err {ℓ} : {A E F : Type ℓ} → (E → F) → Result A E → Result A F
map_err f (ok a) = ok a
map_err f (err e) = err (f e)

module _ {ℓ} {A B E : Type ℓ} (f : A → Result B E) {y : B} where
  -- A chain that ends well has begun well.
  pub >>=-eq-ok : (r : Result A E) → (r >>= f) ≡ ok y → (x : A) × (r ≡ ok x) × (f x ≡ ok y)
  >>=-eq-ok (err why) reached = cc
  >>=-eq-ok (ok x) reached = (x, refl, reached)

pub map_err-eq-ok {ℓ} :
    {A E F : Type ℓ} (f : E → F) (r : Result A E) {a : A} → map_err f r ≡ ok a → r ≡ ok a
map_err-eq-ok f (ok x) h = cc
map_err-eq-ok f (err e) h = cc
