-- ===== src/Consents/Anchors.antt =====
-- A recorded root stands for the events that it was made of.
use Prim.Native.String.{String}
use consentchain.Prelude.{
  ℕ, ◌^◌, ◌≡◌, ◌∙◌, refl, true, some, List, [], ◌∷◌, map, arith, length, get_elem?, ok, err, suc,
  zero, if◌then◌else◌, Bool-cases, inl, inr,
}
use consentchain.Merkle.{Text, ProofStep, get_proof, verify_proof}
use consentchain.Merkle.Proofs.{proof_verifies}
use consentchain.Consents.{Event, integrity_error}
use consentchain.Consents.Roots.{
  found, RootRecord, first_of, last_of, has_root, leaf_of, generate_merkle_root,
}

module _ {A B : Type 0} (f : A → B) where
  length-map : (xs : List A) → length (map f xs) ≡ length xs
  length-map [] = refl
  length-map (x ∷ xs) = omega (arith, length-map xs)

  get_elem?-map :
      (xs : List A) (i : ℕ) {x : A} → get_elem? xs i ≡ some x → get_elem? (map f xs) i ≡ some (f x)
  get_elem?-map [] i e = absurd (ground arith)
  get_elem?-map (y ∷ ys) zero e = ground arith
  get_elem?-map (y ∷ ys) (suc i) e = get_elem?-map ys i e

-- Where 2^k of the events are found and the chain's client answers, a root is made, or it is the root of
-- a record already; in the record stands the number of events found, and the leaf of each of them has a
-- proof that verifies against the root.
pub root_proves_events :
    (sha256 : Text → Text) (line : Event → Text) (ids : List String) (tx : String)
    (events : List Event) (roots : List RootRecord) (k i : ℕ) {e : Event}
    → length (found ids events) ≡ 2 ^ k
    → get_elem? (found ids events) i ≡ some e
    → (r : Text) × (proof : List ProofStep) × (get_proof sha256
          (map (leaf_of sha256 line) (found ids events))
          i
        ≡ ok proof)
      × (verify_proof sha256 (leaf_of sha256 line e) proof r ≡ true)
      × (generate_merkle_root sha256 line ids (some tx) events roots ≡ (
          if has_root r roots
          then err integrity_error
          else ok (
            record {
              root_hash = r;
              event_count = 2 ^ k;
              first_event_id = first_of ids;
              last_event_id = last_of ids;
              on_chain_tx_id = tx;
            }
                ∷ roots,
            (r, tx),
          )))
unfolding generate_merkle_root
root_proves_events sha256 line ids tx events roots k i {e} n there =
    let leaves = map (leaf_of sha256 line) (found ids events) in
    let (proof, r, made, top, checked) =
      proof_verifies sha256 leaves k i (length-map (leaf_of sha256 line) (found ids events) ∙ n)
        (get_elem?-map (leaf_of sha256 line) (found ids events) i there) in
    (
      r,
      proof,
      made,
      checked,
      elim (Bool-cases (has_root r roots)) [
        | inl e' ↦ rw (top, e') refl
        | inr e' ↦ rw (top, e', n) refl
      ],
    )
