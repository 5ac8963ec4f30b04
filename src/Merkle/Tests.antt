-- ===== src/Merkle/Tests.antt =====
-- The tree with simple functions in the place of SHA-256.
use consentchain.Prelude.{◌≡◌, refl, true, List, [], ◌∷◌, ok, ◌⊎◌, list_beq}
use consentchain.Merkle.{
  Text, ProofStep, left, zeros, build_tree, hash_leaves, root, get_proof, verify_proof, next_level,
}
use consentchain.Merkle.Proofs.{proof_verifies}
use consentchain.Merkle.Binding.{Collision, root_binds}

-- A digest that keeps the text visible.
abbrev mark : Text → Text
mark t = 0 ∷ t

-- A digest of 64 characters.
abbrev blank : Text → Text
blank t = zeros 64

abbrev four : List Text
four = (1 ∷ []) ∷ (2 ∷ []) ∷ (3 ∷ []) ∷ (4 ∷ []) ∷ []

abbrev three : List Text
three = (1 ∷ []) ∷ (2 ∷ []) ∷ (3 ∷ []) ∷ []

root_of_three :
    root (build_tree mark (hash_leaves mark three))
    ≡ ok (0 ∷ 0 ∷ 0 ∷ 1 ∷ 0 ∷ 2 ∷ 0 ∷ 0 ∷ 3 ∷ 0 ∷ 3 ∷ [])
unfolding root build_tree hash_leaves next_level
root_of_three = refl

proof_of_third :
    get_proof mark three 2 ≡ ok (record { hash = 0 ∷ 0 ∷ 1 ∷ 0 ∷ 2 ∷ []; position = left } ∷ [])
unfolding get_proof next_level
proof_of_third = refl

proof_verifies_example :
    (proof : List ProofStep) × (r : Text) × (get_proof mark four 2 ≡ ok proof)
    × (root (build_tree mark (hash_leaves mark four)) ≡ ok r)
    × (verify_proof mark (3 ∷ []) proof r ≡ true)
proof_verifies_example = proof_verifies mark four 2 2 refl refl

abbrev step : ProofStep
step = record { hash = zeros 64; position = left }

root_binds_example : ((◌≡◌ {A = Text} (1 ∷ []) (2 ∷ []))) ⊎ Collision blank
unfolding verify_proof list_beq
root_binds_example =
    root_binds blank (λ x. refl) (1 ∷ []) (2 ∷ []) (step ∷ []) (step ∷ []) (zeros 64)
      (refl, refl, refl, tt) refl refl
