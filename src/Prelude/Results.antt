-- ===== src/Prelude/Results.antt =====
-- Fallible code: a result with the error that was raised, and its `do` notation.
use mathlib.Core.Path.{◌≡◌, refl}
use mathlib.Core.Logic.{◌⊎◌, inl, inr}
use mathlib.Core.Bool.{Bool, true, false}
use mathlib.Core.Option.{Option, none, some}

pub data Result {ℓ} (E : Type 0) (A : Type ℓ) : Type ℓ where
  err : E → Result E A
  ok : A → Result E A

module _ {E : Type 0} where
  -- `assert test, message`
  abbrev pub require : Bool → E → Result E (Unit {0})
  require false message = err message
  require true message = ok tt

  -- A value that must be there.
  abbrev pub or_raise {ℓ} : {A : Type ℓ} → Option A → E → Result E A
  or_raise (some value) message = ok value
  or_raise none message = err message

  -- Goes on with the value, or stops at the error.
  infixl 5 ◌>>=◌ ◌>>◌
  abbrev pub ◌>>=◌ {ℓ κ} : {A : Type ℓ} {B : Type κ} → Result E A → (A → Result E B) → Result E B
  err message >>= k = err message
  ok value >>= k = k value

  abbrev pub ◌>>◌ {κ} : {B : Type κ} → Result E (Unit {0}) → Result E B → Result E B
  err message >> r = err message
  ok u >> r = r

  -- The state after a call: one that raised has changed nothing.
  abbrev pub after {ℓ κ} : {S : Type ℓ} {A : Type κ} → S → Result E (S × A) → S
  after before (err message) = before
  after before (ok done) = done.0

  pub Result-cases {ℓ} :
      {A : Type ℓ} (r : Result E A) → ((e : E) × (r ≡ err e)) ⊎ ((a : A) × (r ≡ ok a))
  Result-cases (err e) = inl (e, refl)
  Result-cases (ok a) = inr (a, refl)
