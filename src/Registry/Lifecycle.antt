-- ===== src/Registry/Lifecycle.antt =====
-- The life of one consent: what `verify_consent` answers, and what later calls can make of it.
use consentchain.Prelude.{
  ℕ, ◌+◌, ◌≤◌, ◌<◌, ◌≡◌, ◌≢◌, ◌↔◌, refl, true, false, some, List, [], ◌∷◌, arith, ◌⊎◌, ok, err,
  BoxStore, inl, inr, Option-cases, length,
}
use consentchain.Registry.{
  Registry, Box, Txn, Call, register, revoke, modify, expire, register_consent, revoke_consent,
  modify_consent, expire_consent, step, run, status_granted, status_revoked, status_expired,
  status_modified, encoded_size, verify_consent, modified, box_length, not_active, not_yet_expired,
}

-- No call of the list registers the consent.
abbrev pub NoRegister : ℕ → List (Txn × Call) → Type 0
NoRegister h [] = Unit {0}
NoRegister h ((t, register k _ _ _ _ _) ∷ cs) = (k ≢ h) × NoRegister h cs
NoRegister h (_ ∷ cs) = NoRegister h cs

module _ (B : BoxStore Box) where
  -- The contract's promise: a consent is valid when it is granted and its expiry, if it has one,
  -- has not passed.
  abbrev pub Valid : Txn → Box → Type 0
  Valid t b =
      (b.contents.status ≡ status_granted)
      × ((b.contents.expires_at ≡ 0) ⊎ (t.round ≤ b.contents.expires_at))

  -- `verify_consent` answers true exactly for a consent that is there and valid.
  pub verify_iff_Valid :
      (t : Txn) (h : ℕ) (r : Registry B.Store)
      → (verify_consent B t h r ≡ true) ↔ ((b : Box) × (B.get h r.boxes ≡ some b) × Valid t b)
  unfolding verify_consent
  verify_iff_Valid t h r = (sound, complete)
    where
      sound : verify_consent B t h r ≡ true → (b : Box) × (B.get h r.boxes ≡ some b) × Valid t b
      sound e = elim (Option-cases (B.get h r.boxes)) [
        | inl missing ↦ ground arith
        | inr (b, found) ↦ (b, found, ground arith)
      ]

      complete :
          ((b : Box) × (B.get h r.boxes ≡ some b) × Valid t b) → verify_consent B t h r ≡ true
      complete (b, found, valid) = ground arith

  -- On a revoked consent revocation, modification and expiry all fail, and a call on another
  -- consent does not matter.
  revoked_stays :
      (r : Registry B.Store) (t : Txn) (c : Call) (h : ℕ) {b : Box}
      → B.get h r.boxes ≡ some b
      → b.contents.status ≡ status_revoked
      → NoRegister h ((t, c) ∷ [])
      → B.get h (step B r (t, c)).boxes ≡ some b
  unfolding step register_consent revoke_consent modify_consent expire_consent
  revoked_stays r t (register k p f u d e) h found st n = elim (Option-cases (B.get k r.boxes)) [
    | inl missing ↦ grind (arith, B.get-put)
    | inr (b', old) ↦ grind (arith, B.get-put)
  ]
  revoked_stays r t (revoke k) h found st n = elim (Option-cases (B.get k r.boxes)) [
    | inl missing ↦ grind (arith, B.get-put)
    | inr (b', old) ↦ grind (arith, B.get-put)
  ]
  revoked_stays r t (modify k u e) h found st n = elim (Option-cases (B.get k r.boxes)) [
    | inl missing ↦ grind (arith, B.get-put)
    | inr (b', old) ↦ grind (arith, B.get-put)
  ]
  revoked_stays r t (expire k) h found st n = elim (Option-cases (B.get k r.boxes)) [
    | inl missing ↦ grind (arith, B.get-put)
    | inr (b', old) ↦ grind (arith, B.get-put)
  ]

  -- The revocation of a consent is final, until somebody registers the same hash again: no other
  -- calls, of whatever outcome, make the consent valid or change its record.
  pub revoked_is_final :
      (r : Registry B.Store) (h : ℕ) (cs : List (Txn × Call)) {b : Box}
      → B.get h r.boxes ≡ some b
      → b.contents.status ≡ status_revoked
      → NoRegister h cs
      → (B.get h (run B r cs).boxes ≡ some b)
        × ((t : Txn) → verify_consent B t h (run B r cs) ≡ false)
  unfolding run verify_consent
  revoked_is_final r h [] found st n = (found, λ t. ground arith)
  revoked_is_final r h ((t, register k p f u d e) ∷ cs) found st n =
      revoked_is_final (step B r (t, (register k p f u d e))) h cs
        (revoked_stays r t (register k p f u d e) h found st (n.0, tt)) st n.1
  revoked_is_final r h ((t, revoke k) ∷ cs) found st n =
      revoked_is_final (step B r (t, (revoke k))) h cs (revoked_stays r t (revoke k) h found st tt)
        st n
  revoked_is_final r h ((t, modify k u e) ∷ cs) found st n =
      revoked_is_final (step B r (t, (modify k u e))) h cs
        (revoked_stays r t (modify k u e) h found st tt) st n
  revoked_is_final r h ((t, expire k) ∷ cs) found st n =
      revoked_is_final (step B r (t, (expire k))) h cs (revoked_stays r t (expire k) h found st tt)
        st n

  -- Where a granted consent has an expiry, `expire_consent` refuses it as not yet expired at
  -- exactly the rounds at which `verify_consent` answers true.
  pub expire_agrees :
      (r : Registry B.Store) (t : Txn) (h : ℕ) {b : Box}
      → B.get h r.boxes ≡ some b
      → b.contents.status ≡ status_granted
      → 0 < b.contents.expires_at
      → (verify_consent B t h r ≡ true) ↔ (expire_consent B t h r ≡ err not_yet_expired)
  unfolding verify_consent expire_consent
  expire_agrees r t h found st dated = (λ valid. ground arith, λ refused. ground arith)

  -- A consent that was granted without expiry is valid at every round, and yet at any round but 0
  -- anybody can expire it.
  pub unlimited_is_expirable :
      (r : Registry B.Store) (t : Txn) (h : ℕ) {b : Box}
      → B.get h r.boxes ≡ some b
      → b.contents.status ≡ status_granted
      → b.contents.expires_at ≡ 0
      → encoded_size b.contents ≤ b.size
      → 0 < r.active_consents
      → 0 < t.round
      → (verify_consent B t h r ≡ true) × (verify_consent B t h (step B r (t, expire h)) ≡ false)
  unfolding verify_consent step expire_consent
  unlimited_is_expirable r t h {b} found st undated room counted late =
      let b' : Box = record {
        contents = record (b.contents) { status = status_expired };
        size = b.size;
      } in
      (ground arith, ground (arith, B.get-put h h b' r.boxes))

  -- What a successful modification leaves in the box.
  modify_leaves :
      (r r' : Registry B.Store) (t : Txn) (h : ℕ) (u : List ℕ) (e : ℕ)
      → modify_consent B t h u e r ≡ ok (r', true)
      → (b : Box) × (B.get h r'.boxes ≡ some b)
        × (b.contents.status ≡ status_modified)
        × (t.sender ≡ b.contents.principal_address)
        × (r'.active_consents ≡ r.active_consents)
  unfolding modify_consent
  modify_leaves r r' t h u e done = elim (Option-cases (B.get h r.boxes)) [
    | inl missing ↦ absurd (ground arith)
    | inr (b, old) ↦
        let b' : Box = record { contents = modified u e b.contents; size = b.size } in
        (b', ground (arith, B.get-put h h b' r.boxes), refl, ground arith, ground arith)
  ]

  -- After a successful modification the consent verifies at no round, its principal can no longer
  -- revoke it and nobody can expire it, while the counter of active consents still has it.
  pub modified_is_stranded :
      (r r' : Registry B.Store) (t : Txn) (h : ℕ) (u : List ℕ) (e : ℕ)
      → modify_consent B t h u e r ≡ ok (r', true)
      → ((t' : Txn) → verify_consent B t' h r' ≡ false)
        × (revoke_consent B t h r' ≡ err not_active)
        × ((t' : Txn) → expire_consent B t' h r' ≡ err not_active)
        × (r'.active_consents ≡ r.active_consents)
  unfolding verify_consent modify_consent revoke_consent expire_consent
  modified_is_stranded r r' t h u e done =
      let (b, found, st, own, same) = modify_leaves r r' t h u e done in
      ((λ t'. ground arith), ground arith, (λ t'. ground arith), same)

  -- A modification cannot make the purpose of a consent longer than its box has room for.
  pub modify_needs_room :
      (r : Registry B.Store) (t : Txn) (h : ℕ) (u : List ℕ) (e : ℕ) {b : Box}
      → B.get h r.boxes ≡ some b
      → t.sender ≡ b.contents.principal_address
      → b.contents.status ≢ status_revoked
      → b.size < 132 + length u
      → 0 < length u
      → modify_consent B t h u e r ≡ err box_length
  unfolding modify_consent
  modify_needs_room r t h u e found own alive long some_purpose = ground arith
