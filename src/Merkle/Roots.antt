-- ===== src/Merkle/Roots.antt =====
-- The loop of `_build_tree` ends, and with a root.
use consentchain.Prelude.{
  zero, suc, ℕ, ◌<◌, ◌≤◌, ◌≡◌, ◌≢◌, ◌↔◌, refl, some, List, [], ◌∷◌, arith, length, ok,
}
use consentchain.Merkle.{Text, last_level, next_level, levels, build_tree, hash_leaves, root}
use consentchain.Merkle.Proofs.{
  length-next_level, levels_one, levels_more, last_level-cons, build_tree-levels,
  length-hash_leaves,
}

module _ (sha256 : Text → Text) where
  -- The loop ends with one node, with as much fuel as nodes.
  levels-end :
      (f : ℕ) (l : List Text)
      → 0 < length l
      → length l ≤ f
      → (r : Text) × (last_level (levels sha256 f l) ≡ some (r ∷ []))
  levels-end zero l h n = absurd (omega arith)
  levels-end (suc f) [] h n = absurd (omega arith)
  levels-end (suc f) (x ∷ []) h n = (x, rw (levels_one sha256 (suc f) x))
  levels-end (suc f) (x ∷ y ∷ l) h n =
      let up = next_level sha256 (x ∷ y ∷ l) in
      let size = length-next_level sha256 (x ∷ y ∷ l) in
      let (r, e) = levels-end f up (omega arith) (omega arith) in
      (
        r,
        rw (levels_more sha256 f (x ∷ y ∷ l) (omega arith), last_level-cons sha256 f (x ∷ y ∷ l) up)
            e,
      )

  root_empty : (r : Text) → root (build_tree sha256 (hash_leaves sha256 [])) ≡ ok r → ⊥
  unfolding root build_tree hash_leaves
  root_empty r e = cc

  -- The building of the tree ends with a single root for any leaves but none; without leaves the
  -- root is an index error.
  pub root_defined :
      (leaves : List Text)
      → ((r : Text) × (root (build_tree sha256 (hash_leaves sha256 leaves)) ≡ ok r)) ↔ (leaves ≢ [])
  unfolding root
  root_defined [] = (λ (r, e). absurd (root_empty r e), λ ne. absurd (ne refl))
  root_defined (x ∷ leaves) =
      let l = hash_leaves sha256 (x ∷ leaves) in
      let size : length l ≡ length (x ∷ leaves) = length-hash_leaves sha256 (x ∷ leaves) in
      let (r, e) = levels-end (length l) l (omega arith) (omega arith) in
      (λ _ same. cc, λ _. (r, rw (build_tree-levels sha256 l, root, e)))
