-- ===== src/Merkle.antt =====
-- The Merkle tree of core/crypto.py. Texts are lists of character codes, and SHA-256 is a
-- parameter, the function from a text to the text of its digest; leaves are given as the text that
-- `str` makes of them.
pub mod Proofs
pub mod Roots
pub mod Binding
pub mod Orphans
mod Tests
use consentchain.Prelude.{
  ℕ, zero, suc, ◌+◌, ◌-◌, ◌/◌, ◌%◌, Bool, true, false, Option, none, some, List, [], ◌∷◌, ◌++◌, map,
  eqb, ltb, leb, if◌then◌else◌, length, get_elem?, Result, ok, err, ◌>>=◌, or_raise, ◌==◌, list_eq,
  nat_eq,
}

abbrev pub Text : Type 0
Text = List ℕ

pub data Error : Type 0 where
  index_error : Error

pub data Position : Type 0 where
  left right : Position

pub record ProofStep : Type 0 where
  pub hash : Text
  pub position : Position

abbrev pub zeros : ℕ → Text
zeros zero = []
zeros (suc n) = b'0' ∷ zeros n

-- `index ^ 1`
abbrev pub sibling : ℕ → ℕ
sibling i = if eqb (i % 2) 0 then i + 1 else i - 1

abbrev pub side : ℕ → Position
side index = if ltb (sibling index) index then left else right

abbrev pub last_level : List (List Text) → Option (List Text)
last_level [] = none
last_level (l ∷ []) = some l
last_level (l ∷ m ∷ ls) = last_level (m ∷ ls)

-- `root`: the first hash of the last level; a tree is never empty, but its level may be.
pub root : List (List Text) → Result Error Text
root tree = elim (last_level tree) [
  | none ↦ ok (zeros 64)
  | some level ↦ or_raise (get_elem? level 0) index_error
]

module _ (sha256 : Text → Text) where
  -- One round of the loop: the hashes of neighbours, the last one alone with itself.
  pub next_level : List Text → List Text
  next_level [] = []
  next_level (a ∷ []) = sha256 (a ++ a) ∷ []
  next_level (a ∷ b ∷ rest) = sha256 (a ++ b) ∷ next_level rest

  -- `while len(current_level) > 1`, from the level that stands in the tree already.
  pub levels : ℕ → List Text → List (List Text)
  levels zero level = level ∷ []
  levels (suc fuel) level =
      let above = level ∷ levels fuel (next_level level) in
      if ltb 1 (length level) then above else level ∷ []

  -- The number of leaves is fuel enough: every round but the last halves the level.
  pub build_tree : List Text → List (List Text)
  unfolding levels
  build_tree leaves = if eqb (length leaves) 1 then leaves ∷ [] else levels (length leaves) leaves

  pub hash_leaves : List Text → List Text
  hash_leaves = map sha256

  -- The loop over `tree[:-1]`.
  pub path : ℕ → List (List Text) → List ProofStep
  path index [] = []
  path index (level ∷ []) = []
  path index (level ∷ next ∷ rest) =
      let above = path (index / 2) (next ∷ rest) in
      elim (get_elem? level (sibling index)) [
        | some h ↦ record { hash = h; position = side index } ∷ above
        | none ↦ above
      ]

  pub get_proof : List Text → ℕ → Result Error (List ProofStep)
  unfolding path build_tree hash_leaves
  get_proof leaves leaf_index =
      if leb (length leaves) leaf_index
      then err index_error
      else ok (path leaf_index (build_tree (hash_leaves leaves)))

  -- One step of the loop of `verify_proof`.
  abbrev pub combine : Position → Text → Text → Text
  combine left hash current = sha256 (hash ++ current)
  combine right hash current = sha256 (current ++ hash)

  pub climb : Text → List ProofStep → Text
  climb current [] = current
  climb current (step ∷ proof) = climb (combine step.position step.hash current) proof

  pub verify_proof : Text → List ProofStep → Text → Bool
  unfolding climb
  verify_proof leaf proof root = climb (sha256 leaf) proof == root
