-- ===== src/Consents/Validity.antt =====
-- Which consents the service calls valid, and that its answers never fail.
use Prim.Native.String.{String}
use consentchain.Prelude.{
  ℕ, ◌≡◌, ◌≢◌, ◌↔◌, ◌≤◌, refl, ap, subst, ◌∙◌, true, false, Option, some, none, arith, lookup,
  string_eq, ok, Result,
}
use consentchain.Consents.{
  Status, revoked, expired, Consent, Db, verify_consent, valid, Verdict, Error, is_past,
}
use consentchain.Consents.Cases.{is_live, verify_cases}

-- A consent that may be relied on at a time.
abbrev pub IsValid : ℕ → Consent → Type 0
IsValid now c =
    (c.status ≢ revoked) × (c.status ≢ expired) × ((t : ℕ) → c.expires_at ≡ some t → now ≤ t)

past_iff : (now : ℕ) (o : Option ℕ) → (is_past now o ≡ false) ↔ ((t : ℕ) → o ≡ some t → now ≤ t)
past_iff now none = (λ h t e. ground arith, λ h. refl)
past_iff now (some t) = (λ h u e. ground arith, λ h. ground (arith, h t refl))

live_iff : (s : Status) → (is_live s ≡ true) ↔ ((s ≢ revoked) × (s ≢ expired))
live_iff s = (λ h. (λ e. ground arith, λ e. ground arith), λ h. ground (arith, h.0, h.1))

IsValid-iff :
    (now : ℕ) (c : Consent)
    → IsValid now c ↔ ((is_live c.status ≡ true) × (is_past now c.expires_at ≡ false))
IsValid-iff now c = (
  λ v. ((live_iff c.status).1 (v.0, v.1), (past_iff now c.expires_at).1 v.2),
  λ h. let l = (live_iff c.status).0 h.0 in (l.0, l.1, (past_iff now c.expires_at).0 h.1),
)

pub live_is_valid :
    (now : ℕ) (id : String) (c : Consent) (db : Db)
    → lookup id db.consents ≡ some c
    → is_live c.status ≡ true
    → is_past now c.expires_at ≡ false
    → verify_consent now id db ≡ ok (db, valid c)
unfolding verify_consent
live_is_valid now id c db there live early = ground arith

-- A check answers that a consent is valid exactly when it is in the table, neither revoked nor
-- expired, and its expiry has not passed; it then changes nothing.
pub verify_iff_IsValid :
    (now : ℕ) (id : String) (c : Consent) (db : Db)
    → (((db' : Db) × (verify_consent now id db ≡ ok (db', valid c)))
        ↔ ((lookup id db.consents ≡ some c) × IsValid now c))
      × ((db' : Db) → verify_consent now id db ≡ ok (db', valid c) → db' ≡ db)
verify_iff_IsValid now id c db = ((λ h. (sound h.0 h.1).0, complete), λ db' h. (sound db' h).1)
  where
    Answer : Result Error (Db × Verdict) → Type 0
    Answer r =
        (db' : Db)
        → r ≡ ok (db', valid c)
        → ((lookup id db.consents ≡ some c) × IsValid now c) × (db' ≡ db)

    sound :
        (db' : Db)
        → verify_consent now id db ≡ ok (db', valid c)
        → ((lookup id db.consents ≡ some c) × IsValid now c) × (db' ≡ db)
    sound =
        verify_cases Answer now id db (λ absent db' h. absurd (ground arith))
          (λ c' there st db' h. absurd (ground arith)) (λ c' there st db' h. absurd (ground arith))
          (λ c' t there live at late db' h. absurd (ground arith))
          λ c' there live early db' h.
            let same : c' ≡ c = ground arith in
            (
              (
                there ∙ ap some same,
                subst (IsValid now) same ((IsValid-iff now c').1 (live, early)),
              ),
              ground arith,
            )

    complete :
        ((lookup id db.consents ≡ some c) × IsValid now c)
        → (db' : Db) × (verify_consent now id db ≡ ok (db', valid c))
    complete (there, v) =
        let (live, early) = (IsValid-iff now c).0 v in
        (db, live_is_valid now id c db there live early)
