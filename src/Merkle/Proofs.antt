-- ===== src/Merkle/Proofs.antt =====
-- A proof that `get_proof` makes is accepted by `verify_proof`, for trees of 2^k leaves.
use native.Mathlib.Nat.{pow-suc}
use consentchain.Prelude.{
  ℕ, zero, suc, ◌+◌, ◌*◌, ◌/◌, ◌%◌, ◌^◌, ◌<◌, ◌≤◌, ◌≡◌, refl, true, false, some, List, [], ◌∷◌,
  arith, ltb, length, get_elem?_of_le, get_elem?, get_elem?_of_lt, ok, ==-self, ◌∙◌, list_eq,
  nat_eq,
}
use consentchain.Merkle.{
  Text, ProofStep, sibling, side, last_level, next_level, levels, build_tree, hash_leaves, root,
  path, get_proof, combine, climb, verify_proof,
}

sibling-suc : (i : ℕ) → sibling (suc (suc i)) ≡ suc (suc (sibling i))
sibling-suc i = ground arith

side-suc : (i : ℕ) → side (suc (suc i)) ≡ side i
side-suc i = ground arith

half_suc : (i : ℕ) → suc (suc i) / 2 ≡ suc (i / 2)
half_suc i = omega arith

pub lt-two-pow : (k : ℕ) → k < 2 ^ k
lt-two-pow zero = omega arith
lt-two-pow (suc k) = omega (arith, lt-two-pow k, pow-suc 2 k)

module _ (sha256 : Text → Text) where
  pub length-next_level :
      (l : List Text) → 2 * length (next_level sha256 l) ≡ length l + length l % 2
  unfolding next_level
  length-next_level [] = omega arith
  length-next_level (a ∷ []) = omega arith
  length-next_level (a ∷ b ∷ rest) = omega (arith, length-next_level rest)

  -- The parent of a node that has a sibling.
  next_level_parent :
      (l : List Text) (i : ℕ) {a b : Text}
      → get_elem? l i ≡ some a
      → get_elem? l (sibling i) ≡ some b
      → get_elem? (next_level sha256 l) (i / 2) ≡ some (combine sha256 (side i) b a)
  unfolding next_level
  next_level_parent [] i ha hb = absurd (ground arith)
  next_level_parent (x ∷ []) zero ha hb = absurd (ground arith)
  next_level_parent (x ∷ []) (suc i) ha hb = absurd (ground arith)
  next_level_parent (x ∷ y ∷ r) zero ha hb = cc
  next_level_parent (x ∷ y ∷ r) (suc zero) ha hb = cc
  next_level_parent (x ∷ y ∷ r) (suc (suc i)) {a} {b} ha hb =
      let hb' : get_elem? r (sibling i) ≡ some b = rw (sibling-suc i) at hb in
      rw (half_suc i, side-suc i) (next_level_parent r i ha hb')

  -- The levels above the first are never empty, so that the loop over them goes on.
  pub path-cons :
      (i f : ℕ) (l l' : List Text) {b : Text}
      → get_elem? l (sibling i) ≡ some b
      → path sha256 i (l ∷ levels sha256 f l')
        ≡ record { hash = b; position = side i } ∷ path sha256 (i / 2) (levels sha256 f l')
  unfolding path levels
  path-cons i zero l l' hb = ground arith
  path-cons i (suc f) l l' hb = ground arith

  pub last_level-cons :
      (f : ℕ) (l l' : List Text)
      → last_level (l ∷ levels sha256 f l') ≡ last_level (levels sha256 f l')
  unfolding levels
  last_level-cons zero l l' = refl
  last_level-cons (suc f) l l' = ground arith

  pub levels_one : (f : ℕ) (x : Text) → levels sha256 f (x ∷ []) ≡ (x ∷ []) ∷ []
  unfolding levels
  levels_one zero x = refl
  levels_one (suc f) x = refl

  pub levels_stop :
      (f : ℕ) (l : List Text) → ltb 1 (length l) ≡ false → levels sha256 (suc f) l ≡ l ∷ []
  unfolding levels
  levels_stop f l stop = ground arith

  pub levels_more :
      (f : ℕ) (l : List Text)
      → 1 < length l
      → levels sha256 (suc f) l ≡ l ∷ levels sha256 f (next_level sha256 l)
  unfolding levels
  levels_more f l more = ground arith

  has_sibling :
      (l : List Text) (i m : ℕ) {h : Text}
      → length l ≡ 2 * m
      → get_elem? l i ≡ some h
      → (b : Text) × (get_elem? l (sibling i) ≡ some b)
  has_sibling l i m n hi = get_elem?_of_lt l (sibling i) (ground (arith, get_elem?_of_le l i))

  -- From any node the path climbs to the one node of the last level.
  pub climb-path :
      (k f : ℕ) (l : List Text) (i : ℕ) {h : Text}
      → length l ≡ 2 ^ k
      → k ≤ f
      → get_elem? l i ≡ some h
      → last_level (levels sha256 f l)
        ≡ some (climb sha256 h (path sha256 i (levels sha256 f l)) ∷ [])
  unfolding climb path
  climb-path zero f [] i n fuel hi = absurd (omega arith)
  climb-path zero f (x ∷ []) zero n fuel hi = rw (levels_one f x) (ground arith)
  climb-path zero f (x ∷ []) (suc i) n fuel hi = cc
  climb-path zero f (x ∷ y ∷ l) i n fuel hi = absurd (omega arith)
  climb-path (suc k) zero l i n fuel hi = absurd (omega arith)
  climb-path (suc k) (suc f) l i {h} n fuel hi =
      let n' : length l ≡ 2 * 2 ^ k = omega (arith, pow-suc 2 k) in
      let (b, hb) = has_sibling l i (2 ^ k) n' hi in
      let up = next_level sha256 l in
      let ih =
        climb-path k f up (i / 2) (omega (arith, length-next_level l)) (omega arith)
          (next_level_parent l i hi hb) in
      rw
        (
          levels_more f l (ground (arith, get_elem?_of_le l i)),
          path-cons i f l up hb,
          last_level-cons f l up,
        )
        ih

  pub build_tree-levels : (l : List Text) → build_tree sha256 l ≡ levels sha256 (length l) l
  unfolding build_tree
  build_tree-levels [] = refl
  build_tree-levels (x ∷ []) = refl
  build_tree-levels (x ∷ y ∷ l) = ground arith

  pub length-hash_leaves : (l : List Text) → length (hash_leaves sha256 l) ≡ length l
  unfolding hash_leaves
  length-hash_leaves [] = refl
  length-hash_leaves (x ∷ l) = omega (arith, length-hash_leaves l)

  pub get_elem?-hash_leaves :
      (l : List Text) (i : ℕ) {x : Text}
      → get_elem? l i ≡ some x
      → get_elem? (hash_leaves sha256 l) i ≡ some (sha256 x)
  unfolding hash_leaves
  get_elem?-hash_leaves [] i e = cc
  get_elem?-hash_leaves (y ∷ l) zero e = cc
  get_elem?-hash_leaves (y ∷ l) (suc i) e = get_elem?-hash_leaves l i e

  pub get_proof_lem :
      (leaves : List Text) (i : ℕ)
      → i < length leaves
      → get_proof sha256 leaves i
        ≡ ok (path sha256 i (build_tree sha256 (hash_leaves sha256 leaves)))
  unfolding get_proof
  get_proof_lem leaves i room = ground arith

  -- In a tree of 2^k leaves, for every k, each leaf has a proof, the tree has a root, and
  -- `verify_proof` accepts the leaf with its proof against that root.
  pub proof_verifies :
      (leaves : List Text) (k i : ℕ) {leaf : Text}
      → length leaves ≡ 2 ^ k
      → get_elem? leaves i ≡ some leaf
      → (proof : List ProofStep) × (r : Text) × (get_proof sha256 leaves i ≡ ok proof)
        × (root (build_tree sha256 (hash_leaves sha256 leaves)) ≡ ok r)
        × (verify_proof sha256 leaf proof r ≡ true)
  unfolding get_proof root verify_proof
  proof_verifies leaves k i {leaf} n found =
      let l = hash_leaves sha256 leaves in
      let n' : length l ≡ 2 ^ k = length-hash_leaves leaves ∙ n in
      let proof = path sha256 i (build_tree sha256 l) in
      let r = climb sha256 (sha256 leaf) proof in
      let top : last_level (build_tree sha256 l) ≡ some (r ∷ []) = rw (build_tree-levels l) (
        climb-path k (length l) l i n' (omega (arith, lt-two-pow k))
          (get_elem?-hash_leaves leaves i found)) in
      (proof, r, ground (arith, get_elem?_of_le leaves i), ground arith, ==-self r)
