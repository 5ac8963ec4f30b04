-- ===== src/Registry/Rights.antt =====
-- Who may change a consent, and what a call leaves alone.
use consentchain.Prelude.{
  ℕ, ◌+◌, ◌<◌, ◌≡◌, ◌≢◌, refl, sym, ap, ◌∙◌, some, List, [], ◌∷◌, arith, err, BoxStore, word, inl,
  inr, Option-cases, Bool-cases, length, eqb,
}
use consentchain.Registry.{
  Registry, Box, Txn, Call, register, revoke, modify, expire, register_consent, revoke_consent,
  modify_consent, expire_consent, verify_consent, step, run, status_granted, encoded_size,
  only_principal_revokes, only_principal_modifies,
}

-- The consent that a call names.
abbrev pub target : Call → ℕ
target (register h _ _ _ _ _) = h
target (revoke h) = h
target (modify h _ _) = h
target (expire h) = h

-- A call by which the principal does not change the consent, and nobody registers or expires it.
abbrev pub IsForeign : ℕ → ℕ → Txn → Call → Type 0
IsForeign h principal t (register k _ _ _ _ _) = k ≢ h
IsForeign h principal t (expire k) = k ≢ h
IsForeign h principal t (revoke k) = k ≡ h → t.sender ≢ principal
IsForeign h principal t (modify k _ _) = k ≡ h → t.sender ≢ principal

abbrev pub AllForeign : ℕ → ℕ → List (Txn × Call) → Type 0
AllForeign h principal [] = Unit {0}
AllForeign h principal ((t, c) ∷ cs) = IsForeign h principal t c × AllForeign h principal cs

module _ (B : BoxStore Box) where
  -- A call touches no other consent than the one that it names, whatever its outcome.
  pub step_frame :
      (r : Registry B.Store) (t : Txn) (c : Call) (k : ℕ)
      → k ≢ target c
      → B.get k (step B r (t, c)).boxes ≡ B.get k r.boxes
  unfolding step register_consent revoke_consent modify_consent expire_consent
  step_frame r t (register h p f u d e) k ne = elim (Option-cases (B.get h r.boxes)) [
    | inl new ↦ grind (arith, B.get-put)
    | inr (b', old) ↦ grind (arith, B.get-put)
  ]
  step_frame r t (revoke h) k ne = elim (Option-cases (B.get h r.boxes)) [
    | inl new ↦ grind (arith, B.get-put)
    | inr (b', old) ↦ grind (arith, B.get-put)
  ]
  step_frame r t (modify h u e) k ne = elim (Option-cases (B.get h r.boxes)) [
    | inl new ↦ grind (arith, B.get-put)
    | inr (b', old) ↦ grind (arith, B.get-put)
  ]
  step_frame r t (expire h) k ne = elim (Option-cases (B.get h r.boxes)) [
    | inl new ↦ grind (arith, B.get-put)
    | inr (b', old) ↦ grind (arith, B.get-put)
  ]

  -- Revocation and modification by anybody but the principal of the consent fail, and nothing
  -- changes.
  only_principal_changes :
      (r : Registry B.Store) (t : Txn) (h : ℕ) (u : List ℕ) (e : ℕ) {b : Box}
      → B.get h r.boxes ≡ some b
      → t.sender ≢ b.contents.principal_address
      → (revoke_consent B t h r ≡ err only_principal_revokes)
        × (modify_consent B t h u e r ≡ err only_principal_modifies)
        × (step B r (t, revoke h) ≡ r)
        × (step B r (t, modify h u e) ≡ r)
  unfolding step revoke_consent modify_consent
  only_principal_changes r t h u e found other =
      (ground arith, ground arith, ground arith, ground arith)

  other_stays :
      (r : Registry B.Store) (t : Txn) (c : Call) (h : ℕ) {b : Box}
      → B.get h r.boxes ≡ some b
      → IsForeign h b.contents.principal_address t c
      → B.get h (step B r (t, c)).boxes ≡ some b
  other_stays r t (register k p f u d e) h found foreign =
      step_frame r t (register k p f u d e) h (λ same. foreign (sym same)) ∙ found
  other_stays r t (expire k) h found foreign =
      step_frame r t (expire k) h (λ same. foreign (sym same)) ∙ found
  other_stays r t (revoke k) h {b} found foreign = elim (Bool-cases (eqb h k)) [
    | inr apart ↦ step_frame r t (revoke k) h (λ same. ground arith) ∙ found
    | inl equal ↦
        let same : k ≡ h = ground arith in
        let found' : B.get k r.boxes ≡ some b = ap (λ x. B.get x r.boxes) same ∙ found in
        let still = (only_principal_changes r t k [] 0 found' (foreign same)).2 in
        ap (λ r'. B.get h r'.boxes) still ∙ found
  ]
  other_stays r t (modify k u e) h {b} found foreign = elim (Bool-cases (eqb h k)) [
    | inr apart ↦ step_frame r t (modify k u e) h (λ same. ground arith) ∙ found
    | inl equal ↦
        let same : k ≡ h = ground arith in
        let found' : B.get k r.boxes ≡ some b = ap (λ x. B.get x r.boxes) same ∙ found in
        let still = (only_principal_changes r t k u e found' (foreign same)).3 in
        ap (λ r'. B.get h r'.boxes) still ∙ found
  ]

  -- A consent stays as it is, and answers every check as before, over any calls, of whatever outcome,
  -- among which its principal neither revokes nor modifies it, and nobody registers its hash again
  -- or expires it.
  pub others_change_nothing :
      (r : Registry B.Store) (h : ℕ) (cs : List (Txn × Call)) {b : Box}
      → B.get h r.boxes ≡ some b
      → AllForeign h b.contents.principal_address cs
      → (B.get h (run B r cs).boxes ≡ some b)
        × ((t : Txn) → verify_consent B t h (run B r cs) ≡ verify_consent B t h r)
  unfolding run verify_consent
  others_change_nothing r h [] found foreign = (found, λ t. refl)
  others_change_nothing r h ((t, c) ∷ cs) found foreign =
      let now = other_stays r t c h found foreign.0 in
      let (kept, answers) = others_change_nothing (step B r (t, c)) h cs now foreign.1 in
      (kept, λ t'. answers t' ∙ rw (verify_consent, now, found) refl)

  -- The code does not ask whether a consent is there already: whoever names itself as principal
  -- replaces any consent, of any other principal and in any status, by a granted one of its own,
  -- when the purposes are equally long and the counters are not at their maximum.
  pub register_takes_over :
      (r : Registry B.Store) (t : Txn) (h f dt e : ℕ) (u : List ℕ) {b : Box}
      → B.get h r.boxes ≡ some b
      → encoded_size b.contents ≡ b.size
      → length u ≡ length b.contents.purpose
      → r.total_consents + 1 < word
      → r.active_consents + 1 < word
      → let r' = step B r (t, register h t.sender f u dt e) in
        (b' : Box) × (B.get h r'.boxes ≡ some b')
        × (b'.contents.principal_address ≡ t.sender)
        × (b'.contents.status ≡ status_granted)
        × (r'.active_consents ≡ r.active_consents + 1)
  unfolding step register_consent
  register_takes_over r t h f dt e u {b} found whole same room room' =
      let b' : Box = record {
        contents = record {
          principal_address = t.sender;
          fiduciary_address = f;
          purpose = u;
          data_types_hash = dt;
          status = status_granted;
          granted_at = t.round;
          expires_at = e;
          revoked_at = 0;
        };
        size = b.size;
      } in
      (b', ground (arith, B.get-put h h b' r.boxes), refl, refl, ground arith)
