-- ===== src/Registry/Counters.antt =====
-- The counters of the registry against the boxes that it holds.
use consentchain.Prelude.{
  ℕ, ◌+◌, ◌-◌, ◌≤◌, ◌<◌, ◌≡◌, refl, true, some, List, [], ◌∷◌, arith, eqb, if◌then◌else◌, ok, after,
  BoxStore, word, inl, inr, Option-cases,
}
use consentchain.Registry.{
  Registry, Box, Txn, Call, register, revoke, modify, expire, init, get_consent, encoded_size,
  ConsentData, register_consent, revoke_consent, modify_consent, expire_consent, step, run,
  status_granted, status_revoked,
}

-- 1 for a box whose consent is granted.
abbrev pub granted : Box → ℕ
granted b = if eqb b.contents.status status_granted then 1 else 0

module _ (B : BoxStore Box) where
  -- Every granted consent is counted as active; the active and the revoked ones are among all that
  -- were registered; the counter of all is a machine word.
  pub record IsCounted (r : Registry B.Store) : Type 0 where
    pub granted_active : B.total granted r.boxes ≤ r.active_consents
    pub parts : r.active_consents + r.revoked_consents ≤ r.total_consents
    pub fits : r.total_consents < word

  pub init-IsCounted : (creator : ℕ) → IsCounted (init B creator)
  unfolding init
  init-IsCounted creator = record {
    granted_active = omega (arith, B.total-empty granted);
    parts = omega arith;
    fits = omega arith;
  }

  register-IsCounted :
      (t : Txn) (h p f : ℕ) (u : List ℕ) (d e : ℕ) (r : Registry B.Store)
      → IsCounted r
      → IsCounted (after r (register_consent B t h p f u d e r))
  unfolding register_consent
  register-IsCounted t h p f u d e r v = elim (Option-cases (B.get h r.boxes)) [
    | inl new ↦ grind (arith, B.total-put)
    | inr (b, old) ↦ grind (arith, B.total-put)
  ]

  revoke-IsCounted :
      (t : Txn) (h : ℕ) (r : Registry B.Store)
      → IsCounted r
      → IsCounted (after r (revoke_consent B t h r))
  unfolding revoke_consent
  revoke-IsCounted t h r v = elim (Option-cases (B.get h r.boxes)) [
    | inl new ↦ grind (arith, B.total-put)
    | inr (b, old) ↦ grind (arith, B.total-put)
  ]

  modify-IsCounted :
      (t : Txn) (h : ℕ) (u : List ℕ) (e : ℕ) (r : Registry B.Store)
      → IsCounted r
      → IsCounted (after r (modify_consent B t h u e r))
  unfolding modify_consent
  modify-IsCounted t h u e r v = elim (Option-cases (B.get h r.boxes)) [
    | inl new ↦ grind (arith, B.total-put)
    | inr (b, old) ↦ grind (arith, B.total-put)
  ]

  expire-IsCounted :
      (t : Txn) (h : ℕ) (r : Registry B.Store)
      → IsCounted r
      → IsCounted (after r (expire_consent B t h r))
  unfolding expire_consent
  expire-IsCounted t h r v = elim (Option-cases (B.get h r.boxes)) [
    | inl new ↦ grind (arith, B.total-put)
    | inr (b, old) ↦ grind (arith, B.total-put)
  ]

  step-IsCounted : (r : Registry B.Store) (c : Txn × Call) → IsCounted r → IsCounted (step B r c)
  unfolding step
  step-IsCounted r (t, register h p f u d e) v = register-IsCounted t h p f u d e r v
  step-IsCounted r (t, revoke h) v = revoke-IsCounted t h r v
  step-IsCounted r (t, modify h u e) v = modify-IsCounted t h u e r v
  step-IsCounted r (t, expire h) v = expire-IsCounted t h r v

  run-IsCounted :
      (r : Registry B.Store) (cs : List (Txn × Call)) → IsCounted r → IsCounted (run B r cs)
  unfolding run
  run-IsCounted r [] v = v
  run-IsCounted r (c ∷ cs) v = run-IsCounted (step B r c) cs (step-IsCounted r c v)

  -- Whatever calls were made since the contract was created, with whatever outcome: the granted
  -- consents are at most the active counter, the active and the revoked counters together are at
  -- most the total, and the total is below 2^64.
  pub run-init-IsCounted :
      (creator : ℕ) (cs : List (Txn × Call)) → IsCounted (run B (init B creator) cs)
  run-init-IsCounted creator cs = run-IsCounted _ cs (init-IsCounted creator)

  one_granted :
      (s : B.Store) (h : ℕ) {b : Box}
      → B.get h s ≡ some b
      → b.contents.status ≡ status_granted
      → 1 ≤ B.total granted s
  one_granted s h {b} found st = grind (
    arith,
    B.total-put granted h
        (record { contents = record (b.contents) { status = status_revoked }; size = b.size }) s,
  )

  -- No box is shorter than the struct in it.
  abbrev pub IsRoomy : Registry B.Store → Type 0
  IsRoomy r = (k : ℕ) (b : Box) → B.get k r.boxes ≡ some b → encoded_size b.contents ≤ b.size

  put-IsRoomy :
      (s : B.Store) (h : ℕ) (new : Box)
      → encoded_size new.contents ≤ new.size
      → ((k : ℕ) (b : Box) → B.get k s ≡ some b → encoded_size b.contents ≤ b.size)
      → (k : ℕ) (b : Box) → B.get k (B.put h new s) ≡ some b
      → encoded_size b.contents ≤ b.size
  put-IsRoomy s h new room v k b e = ground (arith, B.get-put k h new s, v k b)

  step-IsRoomy : (r : Registry B.Store) (c : Txn × Call) → IsRoomy r → IsRoomy (step B r c)
  unfolding step register_consent revoke_consent modify_consent expire_consent
  step-IsRoomy r (t, register h p f u d e) v k b found = elim (Option-cases (B.get h r.boxes)) [
    | inl new ↦ grind (arith, B.get-put, v)
    | inr (b', old) ↦ grind (arith, B.get-put, v)
  ]
  step-IsRoomy r (t, revoke h) v k b found = elim (Option-cases (B.get h r.boxes)) [
    | inl new ↦ grind (arith, B.get-put, v)
    | inr (b', old) ↦ grind (arith, B.get-put, v)
  ]
  step-IsRoomy r (t, modify h u e) v k b found = elim (Option-cases (B.get h r.boxes)) [
    | inl new ↦ grind (arith, B.get-put, v)
    | inr (b', old) ↦ grind (arith, B.get-put, v)
  ]
  step-IsRoomy r (t, expire h) v k b found = elim (Option-cases (B.get h r.boxes)) [
    | inl new ↦ grind (arith, B.get-put, v)
    | inr (b', old) ↦ grind (arith, B.get-put, v)
  ]

  init-IsRoomy : (creator : ℕ) → IsRoomy (init B creator)
  unfolding init
  init-IsRoomy creator k b found = ground (arith, B.get-empty k)

  run-IsRoomy : (r : Registry B.Store) (cs : List (Txn × Call)) → IsRoomy r → IsRoomy (run B r cs)
  unfolding run
  run-IsRoomy r [] v = v
  run-IsRoomy r (c ∷ cs) v = run-IsRoomy (step B r c) cs (step-IsRoomy r c v)

  revoke_counted :
      (t : Txn) (h : ℕ) (r : Registry B.Store) {b : Box}
      → IsCounted r
      → B.get h r.boxes ≡ some b
      → b.contents.status ≡ status_granted
      → t.sender ≡ b.contents.principal_address
      → encoded_size b.contents ≤ b.size
      → (r' : Registry B.Store) × (revoke_consent B t h r ≡ ok (r', true))
        × (get_consent B h r'
            ≡ ok (record (b.contents) { status = status_revoked; revoked_at = t.round }))
        × (r'.active_consents + 1 ≡ r.active_consents)
        × (r'.revoked_consents ≡ r.revoked_consents + 1)
  unfolding revoke_consent get_consent
  revoke_counted t h r {b} v found st own room =
      let d : ConsentData = record (b.contents) { status = status_revoked; revoked_at = t.round } in
      (
        record r {
          active_consents = r.active_consents - 1;
          revoked_consents = r.revoked_consents + 1;
          boxes = B.put h (record { contents = d; size = b.size }) r.boxes;
        },
        ground (arith, one_granted r.boxes h found st, B.get-put h h),
        ground (arith, B.get-put h h (record { contents = d; size = b.size }) r.boxes),
        omega (arith, one_granted r.boxes h found st),
        refl,
      )

  -- In any state that the contract can reach, the principal of a granted consent can revoke it: the
  -- call returns true, no counter traps, the consent then reads as it was but for the revoked
  -- status and the round of the revocation, and one active consent became a revoked one.
  pub revoke_succeeds :
      (creator : ℕ) (cs : List (Txn × Call)) (t : Txn) (h : ℕ) {b : Box}
      → let r = run B (init B creator) cs in
        B.get h r.boxes ≡ some b
        → b.contents.status ≡ status_granted
        → t.sender ≡ b.contents.principal_address
        → (r' : Registry B.Store) × (revoke_consent B t h r ≡ ok (r', true))
          × (get_consent B h r'
              ≡ ok (record (b.contents) { status = status_revoked; revoked_at = t.round }))
          × (r'.active_consents + 1 ≡ r.active_consents)
          × (r'.revoked_consents ≡ r.revoked_consents + 1)
  revoke_succeeds creator cs t h {b} found st own =
      let r = run B (init B creator) cs in
      revoke_counted t h r (run-init-IsCounted creator cs) found st own
        (run-IsRoomy _ cs (init-IsRoomy creator) h b found)
