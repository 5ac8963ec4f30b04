-- ===== src/Consents/Cases.antt =====
-- Each call of the service: either it raises, or it has all that it needs and leaves what is shown.
use Prim.Native.String.{String}
use consentchain.Prelude.{
  ℕ, ◌≡◌, true, false, Option, none, some, lookup, string_eq, Option-cases, Bool-cases, Result, ok,
  err, ◌<◌, arith, Bool, Result-cases, inl, inr, refl, ap, or_raise, ◌>>=◌, ◌&&◌, not, contains,
}
use consentchain.Consents.{
  Status, granted, revoked, modified, pending, expired, consent_granted, consent_revoked,
  consent_modified, Consent, Principal, Fiduciary, Db, Error, is_revoked, log, put, Env, Request,
  Changes, create_consent, revoke_consent, modify_consent, verify_consent, by_wallet, after_days,
  new_consent, expiry_after, is_past, revoked_as, modified_as, check_expiry, valid, is_unknown,
  check_status, Verdict, was_revoked, was_expired, attribute_error, fits, fits_given, is_free,
}
use consentchain.Dpdp.{validate_consent_purpose, validate_consent_duration}

-- A creation raises, or it has all that it needs and leaves a new row, an event and an audit log.
pub create_cases :
    (P : Result Error (Db × Consent) → Type 0) (e : Env) (r : Request) (db : Db)
    → ((x : Error) → P (err x))
    → ((p : String × Principal) (f : Fiduciary) (expires_at : ℕ) (tx : String)
        → (validate_consent_purpose r.purpose r.data_types).0 ≡ true
        → (validate_consent_duration r.duration_days r.purpose).0 ≡ true
        → by_wallet r.principal_wallet db.principals ≡ some p
        → lookup r.fiduciary_id db.fiduciaries ≡ some f
        → after_days e.now r.duration_days ≡ ok expires_at
        → e.tx ≡ some tx
        → (fits 50 r.purpose && fits 64 tx) ≡ true
        → (not (contains e.new_id db.consents) && is_free e db) ≡ true
        → P (
            ok (
              log e e.new_id
                  (new_consent e r p.0 expires_at tx)
                  consent_granted
                  "CONSENT_CREATED"
                  r.principal_wallet
                  none
                  (some tx)
                  (some tx)
                  (put e.new_id (new_consent e r p.0 expires_at tx) db),
              (new_consent e r p.0 expires_at tx),
            )))
    → P (create_consent e r db)
unfolding create_consent
create_cases P e r db raised created =
    elim (Bool-cases (validate_consent_purpose r.purpose r.data_types).0) [
      | inr e1 ↦ rw (create_consent, e1) (raised _)
      | inl e1 ↦ elim (Bool-cases (validate_consent_duration r.duration_days r.purpose).0) [
        | inr e2 ↦ rw (create_consent, e1, e2) (raised _)
        | inl e2 ↦ elim (Option-cases (by_wallet r.principal_wallet db.principals)) [
          | inl e3 ↦ rw (create_consent, e1, e2, e3) (raised _)
          | inr (p, e3) ↦ elim (Option-cases (lookup r.fiduciary_id db.fiduciaries)) [
            | inl e4 ↦ rw (create_consent, e1, e2, e3, e4) (raised _)
            | inr (f, e4) ↦ elim (Result-cases (after_days e.now r.duration_days)) [
              | inl (x, e5) ↦ rw (create_consent, e1, e2, e3, e4, e5) (raised _)
              | inr (t, e5) ↦ elim (Option-cases e.tx) [
                | inl e6 ↦ rw (create_consent, e1, e2, e3, e4, e5, e6) (raised _)
                | inr (tx, e6) ↦ elim (Bool-cases (fits 50 r.purpose && fits 64 tx)) [
                  | inr e7 ↦ rw (create_consent, e1, e2, e3, e4, e5, e6, e7) (raised _)
                  | inl e7 ↦
                      elim (Bool-cases (not (contains e.new_id db.consents) && is_free e db)) [
                        | inr e8 ↦ rw (create_consent, e1, e2, e3, e4, e5, e6, e7, e8) (raised _)
                        | inl e8 ↦
                            rw (create_consent, e1, e2, e3, e4, e5, e6, e7, e8)
                              (created p f t tx e1 e2 e3 e4 e5 e6 e7 e8)
                      ]
                ]
              ]
            ]
          ]
        ]
      ]
    ]

pub revoke_cases :
    (P : Result Error (Db × Consent) → Type 0) (e : Env) (id : String) (db : Db)
    → ((x : Error) → P (err x))
    → ((c : Consent) (p : Principal) (tx : String)
        → lookup id db.consents ≡ some c
        → is_revoked c.status ≡ false
        → lookup c.principal_id db.principals ≡ some p
        → e.tx ≡ some tx
        → P (
            ok (
              log e id
                  (revoked_as e.now tx c)
                  consent_revoked
                  "CONSENT_REVOKED"
                  p.wallet_address
                  (some c.status)
                  (some tx)
                  (some tx)
                  (put id (revoked_as e.now tx c) db),
              (revoked_as e.now tx c),
            )))
    → P (revoke_consent e id db)
unfolding revoke_consent
revoke_cases P e id db raised done = elim (Option-cases (lookup id db.consents)) [
  | inl e1 ↦ rw (revoke_consent, e1) (raised _)
  | inr (c, e1) ↦ elim (Bool-cases (is_revoked c.status)) [
    | inl e2 ↦ rw (revoke_consent, e1, e2) (raised _)
    | inr e2 ↦ elim (Option-cases (lookup c.principal_id db.principals)) [
      | inl e3 ↦ rw (revoke_consent, e1, e2, e3) (raised _)
      | inr (p, e3) ↦ elim (Option-cases e.tx) [
        | inl e4 ↦ rw (revoke_consent, e1, e2, e3, e4) (raised _)
        | inr (tx, e4) ↦ elim (Bool-cases (fits 64 tx)) [
          | inr e5 ↦ rw (revoke_consent, e1, e2, e3, e4, e5) (raised _)
          | inl e5 ↦ elim (Bool-cases (is_free e db)) [
            | inr e6 ↦ rw (revoke_consent, e1, e2, e3, e4, e5, e6) (raised _)
            | inl e6 ↦ rw (revoke_consent, e1, e2, e3, e4, e5, e6) (done c p tx e1 e2 e3 e4)
          ]
        ]
      ]
    ]
  ]
]

pub modify_cases :
    (P : Result Error (Db × Consent) → Type 0) (e : Env) (id : String) (ch : Changes) (db : Db)
    → ((x : Error) → P (err x))
    → ((c : Consent) (p : Principal) (expires : Option ℕ)
        → lookup id db.consents ≡ some c
        → is_revoked c.status ≡ false
        → expiry_after e.now ch.new_duration_days c.expires_at ≡ ok expires
        → lookup c.principal_id db.principals ≡ some p
        → P (
            ok (
              log e id
                  (modified_as e.new_hash ch expires c)
                  consent_modified
                  "CONSENT_MODIFIED"
                  p.wallet_address
                  (some c.status)
                  none
                  none
                  (put id (modified_as e.new_hash ch expires c) db),
              (modified_as e.new_hash ch expires c),
            )))
    → P (modify_consent e id ch db)
unfolding modify_consent
modify_cases P e id ch db raised done = elim (Option-cases (lookup id db.consents)) [
  | inl e1 ↦ rw (modify_consent, e1) (raised _)
  | inr (c, e1) ↦ elim (Bool-cases (is_revoked c.status)) [
    | inl e2 ↦ rw (modify_consent, e1, e2) (raised _)
    | inr e2 ↦ elim (Result-cases (expiry_after e.now ch.new_duration_days c.expires_at)) [
      | inl (x, e3) ↦ rw (modify_consent, e1, e2, e3) (raised _)
      | inr (t, e3) ↦ elim (Option-cases (lookup c.principal_id db.principals)) [
        | inl e4 ↦ rw (modify_consent, e1, e2, e3, e4) (raised _)
        | inr (p, e4) ↦ elim (Bool-cases (fits_given ch.new_purpose)) [
          | inr e5 ↦ rw (modify_consent, e1, e2, e3, e4, e5) (raised _)
          | inl e5 ↦ elim (Bool-cases (is_free e db)) [
            | inr e6 ↦ rw (modify_consent, e1, e2, e3, e4, e5, e6) (raised _)
            | inl e6 ↦ rw (modify_consent, e1, e2, e3, e4, e5, e6) (done c p t e1 e2 e3 e4)
          ]
        ]
      ]
    ]
  ]
]

-- Neither revoked nor expired.
abbrev pub is_live : Status → Bool
is_live revoked = false
is_live expired = false
is_live s = true

-- The answers of a check; only the lapse changes the database.
pub verify_cases :
    (P : Result Error (Db × Verdict) → Type 0) (now : ℕ) (id : String) (db : Db)
    → (lookup id db.consents ≡ none → P (ok (db, is_unknown)))
    → ((c : Consent)
        → lookup id db.consents ≡ some c
        → c.status ≡ revoked
        → P (or_raise c.revoked_at attribute_error >>= (λ t. ok (db, was_revoked t))))
    → ((c : Consent)
        → lookup id db.consents ≡ some c
        → c.status ≡ expired
        → P (or_raise c.expires_at attribute_error >>= (λ t. ok (db, was_expired t))))
    → ((c : Consent) (t : ℕ)
        → lookup id db.consents ≡ some c
        → is_live c.status ≡ true
        → c.expires_at ≡ some t
        → t < now
        → P (ok (put id (record c { status = expired }) db, was_expired t)))
    → ((c : Consent)
        → lookup id db.consents ≡ some c
        → is_live c.status ≡ true
        → is_past now c.expires_at ≡ false
        → P (ok (db, valid c)))
    → P (verify_consent now id db)
unfolding verify_consent
verify_cases P now id db unknown was_revoked' was_expired' lapsed holds =
    elim (Option-cases (lookup id db.consents)) [
      | inl e ↦ rw (verify_consent, e) (unknown e)
      | inr (c, e) ↦ rw (verify_consent, e) (by_status c c.status e refl)
    ]
  where
    overdue :
        (c : Consent) (o : Option ℕ)
        → lookup id db.consents ≡ some c
        → is_live c.status ≡ true
        → c.expires_at ≡ o
        → is_past now o ≡ true
        → P (
            or_raise o attribute_error
            >>= (λ t. ok (put id (record c { status = expired }) db, was_expired t)))
    overdue c none e live at late = absurd (ground arith)
    overdue c (some t) e live at late = lapsed c t e live at (ground arith)

    late :
        (c : Consent)
        → lookup id db.consents ≡ some c
        → is_live c.status ≡ true
        → P (check_expiry now id c db)
    late c e live = elim (Bool-cases (is_past now c.expires_at)) [
      | inr e' ↦ rw e' (holds c e live e')
      | inl e' ↦ rw e' (overdue c c.expires_at e live refl e')
    ]

    by_status :
        (c : Consent) (s : Status)
        → lookup id db.consents ≡ some c
        → c.status ≡ s
        → P (check_status now id c db s)
    by_status c revoked e st = was_revoked' c e st
    by_status c expired e st = was_expired' c e st
    by_status c granted e st = late c e (ap is_live st)
    by_status c modified e st = late c e (ap is_live st)
    by_status c pending e st = late c e (ap is_live st)
