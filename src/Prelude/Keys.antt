-- ===== src/Prelude/Keys.antt =====
-- Types whose values the program compares.
use Prim.Native.Nat.{ℕ}
use Prim.Native.String.{String}
use mathlib.Core.Path.{◌≡◌, refl}
use mathlib.Core.Logic.{◌↔◌}
use mathlib.Core.Bool.{Bool, true, false, ◌&&◌}
use mathlib.Core.List.{List, [], ◌∷◌}
use native.Mathlib.Omega.{arith}
use text.Mathlib.Text.{◌==◌ as str_eq}
use text.Mathlib.TextEquality.{eq_iff}
use consentchain.Prelude.Tests.{eqb, eqb_iff}

-- A key type: the test that the program writes `==`, and that it decides equality.
pub record Keyed {ℓ} (K : Type ℓ) : Type ℓ where
  pub same : K → K → Bool
  pub same_iff : (x y : K) → (same x y ≡ true) ↔ (x ≡ y)

module _ {ℓ} {K : Type ℓ} ⦃q : Keyed K⦄ where
  infix 50 ◌==◌
  abbrev pub ◌==◌ : K → K → Bool
  ◌==◌ x y = q.same x y

  pub ==_iff : (x y : K) → ((x == y) ≡ true) ↔ (x ≡ y)
  ==_iff x y = q.same_iff x y

  pub ==-self : (x : K) → (x == x) ≡ true
  ==-self x = (q.same_iff x x).1 refl

instance abbrev pub string_eq : Keyed String
string_eq = record { same = str_eq; same_iff = eq_iff }

instance abbrev pub nat_eq : Keyed ℕ
nat_eq = record { same = eqb; same_iff = eqb_iff }

module _ {ℓ} {A : Type ℓ} ⦃e : Keyed A⦄ where
  unfoldable pub list_beq : List A → List A → Bool
  list_beq [] [] = true
  list_beq [] (y ∷ ys) = false
  list_beq (x ∷ xs) [] = false
  list_beq (x ∷ xs) (y ∷ ys) = (x == y) && list_beq xs ys

  pub list_beq_iff : (xs ys : List A) → (list_beq xs ys ≡ true) ↔ (xs ≡ ys)
  unfolding list_beq
  list_beq_iff [] [] = (λ h. refl, λ h. refl)
  list_beq_iff [] (y ∷ ys) = (λ h. cc, λ h. cc)
  list_beq_iff (x ∷ xs) [] = (λ h. cc, λ h. cc)
  list_beq_iff (x ∷ xs) (y ∷ ys) =
      let ih = list_beq_iff xs ys in
      let it = ==_iff x y in (λ h. ground (arith, ih, it), λ h. ground (arith, ih, it))

instance abbrev pub list_eq {ℓ} : {A : Type ℓ} ⦃e : Keyed A⦄ → Keyed (List A)
list_eq = record { same = list_beq; same_iff = list_beq_iff }
