-- ===== src/Consents/Soundness.antt =====
-- The dates and the references that the answers of the service rely on.
use Prim.Native.String.{String}
use consentchain.Prelude.{
  ℕ, ◌≡◌, ◌≢◌, refl, subst, inl, inr, Option, some, none, arith, lookup, insert, Dict, [], ◌∷◌,
  lookup-insert, ◌==◌, ==_iff, string_eq, Bool-cases, Option-cases, ok, err, after, Result-cases,
  suc, zero, ℤ, pos, negsuc, ==-self, or_raise, ◌>>=◌,
}
use consentchain.Consents.{
  revoked, expired, Consent, Db, Principal, Env, Changes, verify_consent, revoke_consent,
  modify_consent, attribute_error, by_wallet, new_consent, revoked_as, modified_as, expiry_after,
  Verdict, was_revoked, was_expired, after_days,
}
use consentchain.Consents.Accounts.{register_principal, register_fiduciary, has_number, has_wallet}
use consentchain.Consents.Cases.{create_cases, revoke_cases, modify_cases, verify_cases}
use consentchain.Consents.Runs.{
  Op, step, here, next, Reach, registers_principal, registers_fiduciary, creates, revokes, modifies,
  verifies,
}

abbrev IsThere : {A : Type 0} → Option A → Type 0
IsThere {A} o = (a : A) × (o ≡ some a)

-- A row has an expiry, a revoked one the time of the revocation, and its principal is in the table.
abbrev IsDated : Consent → Type 0
IsDated c = IsThere c.expires_at × (c.status ≡ revoked → IsThere c.revoked_at)

abbrev IsRow : Dict String Principal → Consent → Type 0
IsRow ps c = IsDated c × IsThere (lookup c.principal_id ps)

abbrev IsSound : Db → Type 0
IsSound db = (id : String) (c : Consent) → lookup id db.consents ≡ some c → IsRow db.principals c

by_wallet-known :
    (w : String) (ps : Dict String Principal) {p : String × Principal}
    → by_wallet w ps ≡ some p
    → IsThere (lookup p.0 ps)
unfolding by_wallet lookup
by_wallet-known w [] e = absurd (ground arith)
by_wallet-known w ((id, q) ∷ ps) {p} e = elim (Bool-cases (q.wallet_address == w)) [
  | inl same ↦ (q, ground (arith, ==-self id, ==_iff id p.0))
  | inr other ↦
      let (q', there) = by_wallet-known w ps {p = p} (ground arith) in
      elim (Bool-cases (id == p.0)) [ inl e1 ↦ (q, ground arith) | inr e1 ↦ (q', ground arith) ]
]

put-IsRow :
    (id : String) (c : Consent) (db : Db)
    → IsRow db.principals c
    → IsSound db
    → (j : String) (d : Consent) → lookup j (insert id c db.consents) ≡ some d
    → IsRow db.principals d
put-IsRow id c db row v j d there = elim (Bool-cases (id == j)) [
  | inl e ↦
      let same : c ≡ d = ground (arith, lookup-insert j id c db.consents) in
      subst (IsRow db.principals) same row
  | inr e ↦ v j d (ground (arith, lookup-insert j id c db.consents))
]

expiry_after-IsThere :
    (now : ℕ) (d : Option ℤ) (o : Option ℕ) {r : Option ℕ}
    → expiry_after now d o ≡ ok r
    → IsThere o
    → IsThere r
expiry_after-IsThere now none o e there = (there.0, ground arith)
expiry_after-IsThere now (some (pos zero)) o e there = (there.0, ground arith)
expiry_after-IsThere now (some (pos (suc n))) o e there =
    elim (Result-cases (after_days now (pos (suc n)))) [
      | inl (x, e') ↦ absurd (ground arith)
      | inr (t, e') ↦ (t, ground arith)
    ]
expiry_after-IsThere now (some (negsuc n)) o e there =
    elim (Result-cases (after_days now (negsuc n))) [
      | inl (x, e') ↦ absurd (ground arith)
      | inr (t, e') ↦ (t, ground arith)
    ]

insert_keeps :
    (id j : String) (p : Principal) (ps : Dict String Principal)
    → IsThere (lookup j ps)
    → IsThere (lookup j (insert id p ps))
insert_keeps id j p ps there = elim (Bool-cases (id == j)) [
  | inl e ↦ (p, ground (arith, lookup-insert j id p ps))
  | inr e ↦ (there.0, ground (arith, there.1, lookup-insert j id p ps))
]

step-IsSound : (op : Op) (db : Db) → IsSound db → IsSound (step op db)
unfolding step register_principal register_fiduciary
step-IsSound (registers_principal id w e p) db v = elim (Option-cases (by_wallet w db.principals)) [
  | inl absent ↦
      rw (register_principal, absent)
        λ j d there.
          ((v j d there).0, insert_keeps id d.principal_id _ db.principals (v j d there).1)
  | inr (q, there) ↦ rw (register_principal, there) v
]
step-IsSound (registers_fiduciary id f) db v =
    elim (Bool-cases (has_number f.registration_number db.fiduciaries)) [
      | inl e ↦ rw (register_fiduciary, e) v
      | inr e ↦ elim (Bool-cases (has_wallet f.wallet_address db.fiduciaries)) [
        | inl e' ↦ rw (register_fiduciary, e, e') v
        | inr e' ↦ rw (register_fiduciary, e, e') v
      ]
    ]
step-IsSound (creates e r) db v =
    create_cases (λ x. IsSound (after db x)) e r db (λ x. v)
      λ p f t tx allowed timely known there dated answered short new.
        put-IsRow e.new_id (new_consent e r p.0 t tx) db
          (
            ((t, refl), λ st. absurd (ground arith)),
            by_wallet-known r.principal_wallet db.principals known,
          )
          v
step-IsSound (revokes e id) db v =
    revoke_cases (λ x. IsSound (after db x)) e id db (λ x. v)
      λ c p tx there live known answered.
        put-IsRow id (revoked_as e.now tx c) db
          (((v id c there).0.0, λ st. (e.now, refl)), (p, known)) v
step-IsSound (modifies e id ch) db v =
    modify_cases (λ x. IsSound (after db x)) e id ch db (λ x. v)
      λ c p t there live dated known.
        put-IsRow id (modified_as e.new_hash ch t c) db
          (
            (
              expiry_after-IsThere e.now ch.new_duration_days c.expires_at dated (v id c there).0.0,
              λ st. absurd (ground arith),
            ),
            (p, known),
          )
          v
step-IsSound (verifies now id) db v =
    verify_cases (λ x. IsSound (after db x)) now id db (λ absent. v)
      (λ c there st. shown c.revoked_at was_revoked) (λ c there st. shown c.expires_at was_expired)
      (λ c t there live at late.
        put-IsRow id (record c { status = expired }) db
          (((t, at), λ st. absurd (ground arith)), (v id c there).1) v)
      λ c there live early. v
  where
    shown :
        (o : Option ℕ) (f : ℕ → Verdict)
        → IsSound (after db (or_raise o attribute_error >>= (λ t. ok (db, f t))))
    shown none f = v
    shown (some t) f = v

Reach-IsSound : {db : Db} → Reach db → IsSound db
unfolding lookup
Reach-IsSound here id c there = absurd (ground arith)
Reach-IsSound (next op r fresh) id c there = step-IsSound op _ (Reach-IsSound r) id c there

expiry_errors : (now : ℕ) (d : Option ℤ) (o : Option ℕ) → expiry_after now d o ≢ err attribute_error
unfolding after_days
expiry_errors now none o e = ground arith
expiry_errors now (some (pos zero)) o e = ground arith
expiry_errors now (some (pos (suc n))) o e = ground arith
expiry_errors now (some (negsuc n)) o e = ground arith

revoke_has_principal :
    (e : Env) (id : String) (db : Db) → IsSound db → revoke_consent e id db ≢ err attribute_error
unfolding revoke_consent
revoke_has_principal e id db v h = elim (Option-cases (lookup id db.consents)) [
  | inl absent ↦ ground arith
  | inr (c, there) ↦ let (p, known) = (v id c there).1 in ground arith
]

modify_has_principal :
    (e : Env) (id : String) (ch : Changes) (db : Db)
    → IsSound db
    → modify_consent e id ch db ≢ err attribute_error
unfolding modify_consent
modify_has_principal e id ch db v h = elim (Option-cases (lookup id db.consents)) [
  | inl absent ↦ ground arith
  | inr (c, there) ↦
      let (p, known) = (v id c there).1 in
      let dates = expiry_errors e.now ch.new_duration_days c.expires_at in ground (arith, dates)
]

-- Whatever calls the service took since the database was empty, with whatever outcomes: a check of any
-- consent at any time has an answer, and neither a revocation nor a modification ends in an attribute
-- error, since the dates and the principal that they read are there.
pub calls_answer :
    (now : ℕ) (e : Env) (id : String) (ch : Changes) {db : Db}
    → Reach db
    → ((d : Db × Verdict) × (verify_consent now id db ≡ ok d))
      × (revoke_consent e id db ≢ err attribute_error)
      × (modify_consent e id ch db ≢ err attribute_error)
calls_answer now e id ch {db} r = (
  verify_cases (λ x. (d : Db × Verdict) × (x ≡ ok d)) now id db (λ absent. (_, refl))
      (λ c there st. let (t, at) = (v id c there).0.1 st in ((db, was_revoked t), rw at refl))
      (λ c there st. let (t, at) = (v id c there).0.0 in ((db, was_expired t), rw at refl))
      (λ c t there live at late. (_, refl)) (λ c there live early. (_, refl)),
  revoke_has_principal e id db v,
  modify_has_principal e id ch db v,
)
  where
    v : IsSound db
    v = Reach-IsSound r
