-- ===== src/Prelude/Membership.antt =====
-- Python's `x in xs`, `list.remove`, `d.get(k, default)` and the truth of an optional text.
use Prim.Native.String.{String}
use mathlib.Core.Bool.{Bool, false, ◌||◌}
use mathlib.Core.Option.{Option, none, some}
use mathlib.Core.List.{List, [], ◌∷◌}
use consentchain.Prelude.Tests.{if◌then◌else◌}
use consentchain.Prelude.Keys.{Keyed, ◌==◌, string_eq}

module _ {ℓ} {K : Type ℓ} ⦃e : Keyed K⦄ where
  unfoldable pub is_in : K → List K → Bool
  is_in x [] = false
  is_in x (y ∷ ys) = x == y || is_in x ys

  -- The first one goes; a list without it stays.
  unfoldable pub remove_first : K → List K → List K
  remove_first x [] = []
  remove_first x (y ∷ ys) = let rest = remove_first x ys in if x == y then ys else y ∷ rest

-- `x.get(key, default)`
abbrev pub or_else {ℓ} : {A : Type ℓ} → Option A → A → A
or_else none d = d
or_else (some a) d = a

-- `if not x`: a text that is missing or empty counts as none.
abbrev pub truthy : Option String → Option String
truthy none = none
truthy (some x) = if x == "" then none else some x
