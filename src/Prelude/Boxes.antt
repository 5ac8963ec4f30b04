-- ===== src/Prelude/Boxes.antt =====
-- Storage that the chain keeps for a contract: keyed boxes, as an interface, and a dictionary that
-- meets it. Counters of a contract are 64-bit and trap on overflow and underflow.
use Prim.Native.Nat.{ℕ, ◌+◌, ◌-◌, ◌^◌}
use mathlib.Core.Path.{◌≡◌, refl}
use mathlib.Core.Option.{Option, none, some}
use mathlib.Core.List.{[], ◌∷◌}
use native.Mathlib.Omega.{arith}
use consentchain.Prelude.Tests.{if◌then◌else◌, leb, ltb}
use consentchain.Prelude.Keys.{◌==◌, nat_eq}
use consentchain.Prelude.Dicts.{Dict, lookup, insert, lookup-insert}
use consentchain.Prelude.Results.{Result, ok, err}

abbrev pub weight : {V : Type 0} → (V → ℕ) → Option V → ℕ
weight f none = 0
weight f (some v) = f v

-- What a contract relies on: a read returns what was last written under the key, and a count over
-- all boxes moves by the box that is written.
pub record BoxStore (V : Type 0) : Type 1 where
  pub Store : Type 0
  pub empty : Store
  pub get : ℕ → Store → Option V
  pub put : ℕ → V → Store → Store
  pub total : (V → ℕ) → Store → ℕ
  pub get-empty : (k : ℕ) → get k empty ≡ none
  pub get-put :
      (j k : ℕ) (v : V) (s : Store) → get j (put k v s) ≡ (if k == j then some v else get j s)
  pub total-empty : (f : V → ℕ) → total f empty ≡ 0
  pub total-put :
      (f : V → ℕ) (k : ℕ) (v : V) (s : Store)
      → total f (put k v s) + weight f (get k s) ≡ total f s + f v

module _ {V : Type 0} where
  pub sum_by : (V → ℕ) → Dict ℕ V → ℕ
  sum_by f [] = 0
  sum_by f ((k, v) ∷ d) = f v + sum_by f d

  pub sum_by-insert :
      (f : V → ℕ) (k : ℕ) (v : V) (d : Dict ℕ V)
      → sum_by f (insert k v d) + weight f (lookup k d) ≡ sum_by f d + f v
  unfolding sum_by insert lookup
  sum_by-insert f k v [] = omega arith
  sum_by-insert f k v ((j, w) ∷ d) = ground (arith, sum_by-insert f k v d)

  pub sum_by-empty : (f : V → ℕ) → sum_by f [] ≡ 0
  unfolding sum_by
  sum_by-empty f = refl

  pub lookup-empty : (k : ℕ) → lookup {V = V} k [] ≡ none
  unfolding lookup
  lookup-empty k = refl

-- The interface can be met: boxes in a dictionary.
abbrev pub dict_boxes : (V : Type 0) → BoxStore V
dict_boxes V = record {
  Store = Dict ℕ V;
  empty = [];
  get = lookup;
  put = insert;
  total = sum_by;
  get-empty = lookup-empty;
  get-put = lookup-insert;
  total-empty = sum_by-empty;
  total-put = sum_by-insert;
}

abbrev pub word : ℕ
word = 2 ^ 64

-- `UInt64` addition and subtraction: the program fails rather than wrap.
unfoldable pub add_word : {E : Type 0} → E → ℕ → ℕ → Result E ℕ
add_word trap a b = if ltb (a + b) word then ok (a + b) else err trap

unfoldable pub sub_word : {E : Type 0} → E → ℕ → ℕ → Result E ℕ
sub_word trap a b = if leb b a then ok (a - b) else err trap
