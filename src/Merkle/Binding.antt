-- ===== src/Merkle/Binding.antt =====
-- A root binds the leaves: two leaves that are accepted at the same place of the tree are the same,
-- unless SHA-256 has a collision, which is then at hand.
use mathlib.Core.Path.{subst}
use consentchain.Prelude.{
  sym, ◌∙◌, ◌≡◌, ◌≢◌, refl, true, List, [], ◌∷◌, ◌++◌, arith, length, inl, inr, Bool-cases, ◌==◌,
  ==_iff, list_eq, nat_eq, ◌⊎◌,
}
use consentchain.Merkle.{Text, Position, left, right, ProofStep, combine, climb, verify_proof}

append_split {ℓ} :
    {A : Type ℓ} (xs ys : List A) {us vs : List A}
    → length xs ≡ length ys
    → xs ++ us ≡ ys ++ vs
    → (xs ≡ ys) × (us ≡ vs)
append_split [] [] n e = (refl, e)
append_split [] (y ∷ ys) n e = absurd (omega arith)
append_split (x ∷ xs) [] n e = absurd (omega arith)
append_split (x ∷ xs) (y ∷ ys) {us} {vs} n e =
    let ih : (xs ≡ ys) × (us ≡ vs) = append_split xs ys (omega arith) (cc) in
    (ground (arith, ih.0), ih.1)

-- Two proofs of the same length, with the same sides, of digests of 64 characters.
abbrev pub SameShape : List ProofStep → List ProofStep → Type 0
SameShape [] [] = Unit {0}
SameShape [] (t ∷ q) = ⊥
SameShape (s ∷ p) [] = ⊥
SameShape (s ∷ p) (t ∷ q) =
    (s.position ≡ t.position) × (length s.hash ≡ 64) × (length t.hash ≡ 64) × SameShape p q

module _ (sha256 : Text → Text) where
  abbrev pub Collision : Type 0
  Collision = (x : Text) × (y : Text) × (x ≢ y) × (sha256 x ≡ sha256 y)

  -- Equal digests come from equal texts, or are a collision.
  same_or_collide : (x y : Text) → sha256 x ≡ sha256 y → (x ≡ y) ⊎ Collision
  same_or_collide x y e = elim (Bool-cases (x == y)) [
    | inl same ↦ inl ((==_iff x y).0 same)
    | inr other ↦ inr (x, y, (λ xy. ground (arith, ==_iff x y)), e)
  ]

module _ (sha256 : Text → Text) (digest : (x : Text) → length (sha256 x) ≡ 64) where
  combine-split :
      (s : Position) (h k x y : Text)
      → length h ≡ 64
      → length k ≡ 64
      → length x ≡ 64
      → length y ≡ 64
      → combine sha256 s h x ≡ combine sha256 s k y
      → (x ≡ y) ⊎ Collision sha256
  combine-split left h k x y nh nk nx ny e = elim (same_or_collide sha256 (h ++ x) (k ++ y) e) [
    | inl same ↦ inl (append_split h k (omega arith) same).1
    | inr broken ↦ inr broken
  ]
  combine-split right h k x y nh nk nx ny e = elim (same_or_collide sha256 (x ++ h) (y ++ k) e) [
    | inl same ↦ inl (append_split x y (omega arith) same).0
    | inr broken ↦ inr broken
  ]

  length-combine : (s : Position) (h x : Text) → length (combine sha256 s h x) ≡ 64
  length-combine left h x = digest (h ++ x)
  length-combine right h x = digest (x ++ h)

  pub climb_binds :
      (p q : List ProofStep) (x y : Text)
      → SameShape p q
      → length x ≡ 64
      → length y ≡ 64
      → climb sha256 x p ≡ climb sha256 y q
      → (x ≡ y) ⊎ Collision sha256
  unfolding climb
  climb_binds [] [] x y shape nx ny e = inl e
  climb_binds [] (t ∷ q) x y shape nx ny e = absurd shape
  climb_binds (s ∷ p) [] x y shape nx ny e = absurd shape
  climb_binds (s ∷ p) (t ∷ q) x y shape nx ny e =
      let e' : climb sha256 (combine sha256 s.position s.hash x) p
          ≡ climb sha256 (combine sha256 s.position t.hash y) q =
        subst
          (λ side.
            climb sha256 (combine sha256 s.position s.hash x) p
            ≡ climb sha256 (combine sha256 side t.hash y) q)
          (sym shape.0) e in
      elim (climb_binds p q _ _ shape.3 (length-combine s.position s.hash x)
        (length-combine s.position t.hash y) e') [
          | inl same ↦ combine-split s.position s.hash t.hash x y shape.1 shape.2 nx ny same
          | inr broken ↦ inr broken
        ]

  -- Two leaves that `verify_proof` accepts against one root, with proofs of the same shape (as many
  -- steps, on the same sides, of 64 characters each), are equal, or there is a collision.
  pub root_binds :
      (a b : Text) (p q : List ProofStep) (r : Text)
      → SameShape p q
      → verify_proof sha256 a p r ≡ true
      → verify_proof sha256 b q r ≡ true
      → (a ≡ b) ⊎ Collision sha256
  unfolding verify_proof
  root_binds a b p q r shape va vb =
      elim (climb_binds p q (sha256 a) (sha256 b) shape (digest a) (digest b)
        ((==_iff _ r).0 va ∙ sym ((==_iff _ r).0 vb))) [
          | inl same ↦ same_or_collide sha256 a b same
          | inr broken ↦ inr broken
        ]
