-- ===== src/Merkle/Orphans.antt =====
-- The last leaf of an odd number of leaves, which the tree pairs with itself.
use native.Mathlib.Numerals.{add-one}
use consentchain.Prelude.{
  ℕ, zero, suc, ◌+◌, ◌*◌, ◌/◌, ◌^◌, ◌<◌, ◌≡◌, refl, false, some, none, List, [], ◌∷◌, ◌++◌, arith,
  length, inl, inr, Bool-cases, ltb, Option-cases, ltb→lt, ◌==◌, ==_iff, list_eq, nat_eq, ◌⊎◌,
  get_elem?, get_elem?_of_le, ok, ◌∙◌,
}
use consentchain.Merkle.{
  Text, ProofStep, sibling, last_level, next_level, levels, build_tree, hash_leaves, root, path,
  get_proof, climb, verify_proof,
}
use consentchain.Merkle.Proofs.{
  lt-two-pow, get_proof_lem, length-next_level, levels_more, climb-path, levels_stop, path-cons,
  build_tree-levels, length-hash_leaves, get_elem?-hash_leaves, last_level-cons,
}
use consentchain.Merkle.Binding.{SameShape, Collision, climb_binds}

half_double : (m : ℕ) → (2 * m) / 2 ≡ m
half_double m = omega arith

double_suc : (m : ℕ) → 2 * suc m ≡ suc (suc (2 * m))
double_suc m = omega arith

abbrev Digests : List Text → Type 0
Digests [] = Unit {0}
Digests (h ∷ l) = (length h ≡ 64) × Digests l

Digests-get :
    (l : List Text) (i : ℕ) {h : Text} → Digests l → get_elem? l i ≡ some h → length h ≡ 64
Digests-get [] i d e = absurd (ground arith)
Digests-get (x ∷ l) zero d e = ground arith
Digests-get (x ∷ l) (suc i) d e = Digests-get l i d.1 e

module _ (sha256 : Text → Text) where
  -- The parent of the last node of an odd level.
  next_level_last :
      (l : List Text) (m : ℕ) {a : Text}
      → length l ≡ 2 * m + 1
      → get_elem? l (2 * m) ≡ some a
      → get_elem? (next_level sha256 l) m ≡ some (sha256 (a ++ a))
  unfolding next_level
  next_level_last [] m n e = absurd (omega arith)
  next_level_last (x ∷ []) zero n e = ground arith
  next_level_last (x ∷ []) (suc m) n e = absurd (omega arith)
  next_level_last (x ∷ y ∷ l) zero n e = absurd (omega arith)
  next_level_last (x ∷ y ∷ l) (suc m) {a} n e =
      next_level_last l m (omega arith) (rw (double_suc m) at e)

  -- No step of the proof is made at a level where the sibling is missing.
  path-skip :
      (i f : ℕ) (l l' : List Text)
      → get_elem? l (sibling i) ≡ none
      → path sha256 i (l ∷ levels sha256 f l') ≡ path sha256 (i / 2) (levels sha256 f l')
  unfolding path levels
  path-skip i zero l l' hb = ground arith
  path-skip i (suc f) l l' hb = ground arith

module _ (sha256 : Text → Text) (digest : (x : Text) → length (sha256 x) ≡ 64) where
  next_level-Digests : (l : List Text) → Digests (next_level sha256 l)
  unfolding next_level
  next_level-Digests [] = tt
  next_level-Digests (a ∷ []) = (digest (a ++ a), tt)
  next_level-Digests (a ∷ b ∷ l) = (digest (a ++ b), next_level-Digests l)

  hash_leaves-Digests : (l : List Text) → Digests (hash_leaves sha256 l)
  unfolding hash_leaves
  hash_leaves-Digests [] = tt
  hash_leaves-Digests (x ∷ l) = (digest x, hash_leaves-Digests l)

  path-SameShape :
      (f i : ℕ) (l : List Text)
      → Digests l
      → let p = path sha256 i (levels sha256 f l) in SameShape p p
  unfolding levels path
  path-SameShape zero i l d = tt
  path-SameShape (suc f) i l d = elim (Bool-cases (ltb 1 (length l))) [
    | inl more ↦
        rw (levels_more sha256 f l (ltb→lt 1 (length l) more))
          (elim (Option-cases (get_elem? l (sibling i))) [
            | inl alone ↦
                rw (path-skip sha256 i f l (next_level sha256 l) alone)
                  (path-SameShape f (i / 2) (next_level sha256 l) (next_level-Digests l))
            | inr (b, found) ↦ rw (path-cons sha256 i f l (next_level sha256 l) found) (
              refl,
              Digests-get l (sibling i) d found,
              Digests-get l (sibling i) d found,
              path-SameShape f (i / 2) (next_level sha256 l) (next_level-Digests l),
            )
          ])
    | inr single ↦ rw (levels_stop sha256 f l single) tt
  ]

  -- The last level over an odd one, from the parent of its last node.
  odd_tree :
      (l : List Text) (m k : ℕ) {h : Text}
      → 0 < m
      → length l ≡ 2 * m + 1
      → m + 1 ≡ 2 ^ k
      → get_elem? l (2 * m) ≡ some h
      → let proof = path sha256 (2 * m) (build_tree sha256 l) in
        last_level (build_tree sha256 l) ≡ some (climb sha256 (sha256 (h ++ h)) proof ∷ [])
  odd_tree l m k {h} several n np found =
      let f = 2 * m in
      let up = next_level sha256 l in
      let tree : build_tree sha256 l ≡ l ∷ levels sha256 f up =
        rw (build_tree-levels sha256 l, n, add-one) (levels_more sha256 f l (omega arith)) in
      let alone : get_elem? l (sibling (2 * m)) ≡ none =
        get_elem?_of_le l (sibling (2 * m)) (ground arith) in
      let parent : get_elem? up m ≡ some (sha256 (h ++ h)) = next_level_last sha256 l m n found in
      let size : length up ≡ 2 ^ k = omega (arith, length-next_level sha256 l) in
      rw (tree, last_level-cons sha256 f l up, path-skip sha256 (2 * m) f l up alone, half_double m)
        (climb-path sha256 k f up m size (omega (arith, lt-two-pow k)) parent)

  verdict :
      (leaf : Text) (proof : List ProofStep)
      → SameShape proof proof
      → let h = sha256 leaf in
        let r = climb sha256 (sha256 (h ++ h)) proof in
        (verify_proof sha256 leaf proof r ≡ false) ⊎ ((h ≡ sha256 (h ++ h)) ⊎ Collision sha256)
  unfolding verify_proof
  verdict leaf proof shape =
      let h = sha256 leaf in
      let hh = sha256 (h ++ h) in
      elim (Bool-cases (climb sha256 h proof == climb sha256 hh proof)) [
        | inl same ↦ inr (
            climb_binds sha256 digest proof proof h hh shape (digest leaf) (digest (h ++ h))
              ((==_iff _ _).0 same))
        | inr other ↦ inl other
      ]

  -- The last one of 2m + 1 leaves, where m + 1 is a power of two, is refused with the proof that
  -- `get_proof` makes for it, unless SHA-256 has a collision or the digest of the leaf is the digest
  -- of itself written twice.
  pub last_leaf_refused :
      (leaves : List Text) (m k : ℕ) {leaf : Text}
      → 0 < m
      → length leaves ≡ 2 * m + 1
      → m + 1 ≡ 2 ^ k
      → get_elem? leaves (2 * m) ≡ some leaf
      → (proof : List ProofStep) × (r : Text) × (get_proof sha256 leaves (2 * m) ≡ ok proof)
        × (root (build_tree sha256 (hash_leaves sha256 leaves)) ≡ ok r)
        × ((verify_proof sha256 leaf proof r ≡ false)
            ⊎ ((sha256 leaf ≡ sha256 (sha256 leaf ++ sha256 leaf)) ⊎ Collision sha256))
  unfolding root
  last_leaf_refused leaves m k {leaf} several n np found =
      let l = hash_leaves sha256 leaves in
      let nl : length l ≡ 2 * m + 1 = length-hash_leaves sha256 leaves ∙ n in
      let at_leaf = get_elem?-hash_leaves sha256 leaves (2 * m) found in
      let proof = path sha256 (2 * m) (build_tree sha256 l) in
      let h = sha256 leaf in
      let shape : SameShape proof proof =
        rw (build_tree-levels sha256 l)
          (path-SameShape (length l) (2 * m) l (hash_leaves-Digests leaves)) in
      (
        proof,
        climb sha256 (sha256 (h ++ h)) proof,
        get_proof_lem sha256 leaves (2 * m) (omega arith),
        rw (odd_tree l m k several nl np at_leaf, root),
        verdict leaf proof shape,
      )
