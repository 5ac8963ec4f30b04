-- ===== src/Consents/Creation.antt =====
-- Which consents the service makes, and what a modification may make of them.
use Prim.Native.String.{String}
use consentchain.Prelude.{
  ℕ, ◌≡◌, ◌≢◌, ◌↔◌, ◌≤◌, ◌+◌, ◌*◌, refl, sym, ap, subst, ◌∙◌, true, false, some, none, arith,
  lookup, lookup-insert_self, ==_iff, string_eq, ok, List, ◌∷◌, pos, zero, suc, truthy, false, not,
  ◌&&◌, contains, is_in, map,
}
use consentchain.Dpdp.{max_days_of, validate_consent_purpose, validate_consent_duration}
use consentchain.Dpdp.Rules.{IsSensitive, purpose_allowed_iff}
use consentchain.Consents.{
  Consent, Db, Principal, Fiduciary, Env, Request, Changes, day, max_time, after_days, by_wallet,
  create_consent, modify_consent, verify_consent, valid, new_consent, modified_as, is_revoked, log,
  put, consent_granted, consent_modified, characters, fits, fits_given, is_free,
}
use consentchain.Consents.Cases.{create_cases}
use consentchain.Consents.Validity.{live_is_valid}

-- What a request for a consent of some days needs.
abbrev pub IsAllowed : ℕ → Request → Type 0
IsAllowed days r =
    (r.purpose ≢ "THIRD_PARTY_SHARING")
    × (IsSensitive r.data_types → (r.purpose ≢ "MARKETING") × (r.purpose ≢ "ANALYTICS"))
    × (1 ≤ days)
    × (days ≤ max_days_of r.purpose)

duration_iff :
    (n : ℕ) (purpose : String)
    → ((validate_consent_duration (pos n) purpose).0 ≡ true) ↔ ((1 ≤ n) × (n ≤ max_days_of purpose))
unfolding validate_consent_duration
duration_iff n purpose = (λ h. (ground arith, ground arith), λ h. ground (arith, h.0, h.1))

rules_iff :
    (days : ℕ) (r : Request)
    → (((validate_consent_purpose r.purpose r.data_types).0 ≡ true)
        × ((validate_consent_duration (pos days) r.purpose).0 ≡ true))
      ↔ IsAllowed days r
rules_iff days r =
    let purpose = purpose_allowed_iff r.purpose r.data_types in
    let duration = duration_iff days r.purpose in
    (
      λ h. let (a, b) = purpose.0 h.0 in let (c, d) = duration.0 h.1 in (a, b, c, d),
      λ h. (purpose.1 (h.0, h.1), duration.1 (h.2, h.3)),
    )

-- The new consent, the new event and the new audit log have primary keys that no row has.
abbrev pub IsNew : Env → Db → Type 0
IsNew e db =
    (lookup e.new_id db.consents ≡ none)
    × (is_in e.event_id (map (λ x. x.id) db.events) ≡ false)
    × (is_in e.audit_id (map (λ a. a.id) db.audits) ≡ false)

-- What the database and the chain have for it: the transaction of the chain is named by at most 64
-- characters.
abbrev pub IsServed : Env → Request → Db → Type 0
IsServed e r db =
    ((p : String × Principal) × (by_wallet r.principal_wallet db.principals ≡ some p))
    × ((f : Fiduciary) × (lookup r.fiduciary_id db.fiduciaries ≡ some f))
    × ((tx : String) × (e.tx ≡ some tx) × (characters tx ≤ 64))
    × (characters r.purpose ≤ 50)
    × IsNew e db

IsNew-is_free : (e : Env) (db : Db) → IsNew e db → is_free e db ≡ true
IsNew-is_free e db (no_row, no_event, no_log) = ground arith

IsNew-iff :
    (e : Env) (db : Db)
    → ((not (contains e.new_id db.consents) && is_free e db) ≡ true) ↔ IsNew e db
IsNew-iff e db = (
  λ h. (ground arith, ground arith, ground arith),
  λ h. ground (arith, h.0, IsNew-is_free e db h),
)

after_days_lem :
    (now days : ℕ) → now + days * day ≤ max_time → after_days now (pos days) ≡ ok (now + days * day)
unfolding after_days
after_days_lem now days room = ground arith

after_days_ok :
    (now days t : ℕ)
    → after_days now (pos days) ≡ ok t
    → (now + days * day ≤ max_time) × (t ≡ now + days * day)
unfolding after_days
after_days_ok now days t dated = (ground arith, ground arith)

creates_when :
    (e : Env) (r : Request) (db : Db) (days : ℕ)
    → r.duration_days ≡ pos days
    → IsAllowed days r
    → IsServed e r db
    → e.now + days * day ≤ max_time
    → (d : Db × Consent) × (create_consent e r db ≡ ok d)
unfolding create_consent
creates_when e r db days span a ((p, known), (f, there), (tx, answered, named), short, new) room =
    let (allowed, timely) = (rules_iff days r).1 a in
    let timely' : (validate_consent_duration r.duration_days r.purpose).0 ≡ true =
      subst (λ z. (validate_consent_duration z r.purpose).0 ≡ true) (sym span) timely in
    let dated : after_days e.now r.duration_days ≡ ok (e.now + days * day) =
      ap (after_days e.now) span ∙ after_days_lem e.now days room in
    let fitting : (fits 50 r.purpose && fits 64 tx) ≡ true = ground arith in
    let free = (IsNew-iff e db).1 new in
    let c = new_consent e r p.0 (e.now + days * day) tx in
    (
      (
        log e e.new_id c consent_granted "CONSENT_CREATED" r.principal_wallet none (some tx)
            (some tx) (put e.new_id c db),
        c,
      ),
      rw (create_consent, allowed, timely', known, there, dated, answered, fitting, free) refl,
    )

-- A consent for some days is created exactly when the rules allow its purpose, data types and days,
-- the wallet is that of a registered principal, the fiduciary is registered, the chain's client
-- answers with at most 64 characters, the purpose has at most fifty characters, the primary keys of
-- the new rows are not taken, and the expiry is before the year 10000.
pub creates_iff :
    (e : Env) (r : Request) (db : Db) (days : ℕ)
    → r.duration_days ≡ pos days
    → ((d : Db × Consent) × (create_consent e r db ≡ ok d))
      ↔ (IsAllowed days r × IsServed e r db × (e.now + days * day ≤ max_time))
creates_iff e r db days span = (λ h. needs h.0 h.1, λ h. creates_when e r db days span h.0 h.1 h.2)
  where
    needs :
        (d : Db × Consent)
        → create_consent e r db ≡ ok d
        → IsAllowed days r × IsServed e r db × (e.now + days * day ≤ max_time)
    needs d =
        create_cases
          (λ x. x ≡ ok d → IsAllowed days r × IsServed e r db × (e.now + days * day ≤ max_time)) e r
          db (λ x h. absurd (ground arith))
          λ p f t tx allowed timely known there dated answered fitting free h.
            let timely' : (validate_consent_duration (pos days) r.purpose).0 ≡ true =
              subst (λ z. (validate_consent_duration z r.purpose).0 ≡ true) span timely in
            let dated' : after_days e.now (pos days) ≡ ok t =
              ap (after_days e.now) (sym span) ∙ dated in
            (
              (rules_iff days r).0 (allowed, timely'),
              (
                (p, known),
                (f, there),
                (tx, answered, ground arith),
                ground arith,
                (IsNew-iff e db).0 free,
              ),
              (after_days_ok e.now days t dated').0,
            )

-- A modification is not measured by the rules: any consent that is not revoked, an expired one too,
-- can be given any purpose of at most fifty characters, and any data types and days from now, and is
-- then valid until the new expiry, if the primary keys of the new event and audit log are not taken.
pub modify_ignores_rules :
    (e : Env) (id purpose first : String) (rest : List String) (days now : ℕ) (db : Db)
    {c : Consent} {p : Principal}
    → lookup id db.consents ≡ some c
    → is_revoked c.status ≡ false
    → lookup c.principal_id db.principals ≡ some p
    → purpose ≢ ""
    → characters purpose ≤ 50
    → is_in e.event_id (map (λ x. x.id) db.events) ≡ false
    → is_in e.audit_id (map (λ a. a.id) db.audits) ≡ false
    → 1 ≤ days
    → e.now + days * day ≤ max_time
    → now ≤ e.now + days * day
    → let ch : Changes = record {
      new_purpose = some purpose;
      new_data_types = some (first ∷ rest);
      new_duration_days = some (pos days);
    } in
      (db' : Db) × (c' : Consent) × (modify_consent e id ch db ≡ ok (db', c'))
      × (c'.purpose ≡ purpose)
      × (c'.data_types ≡ first ∷ rest)
      × (verify_consent now id db' ≡ ok (db', valid c'))
unfolding modify_consent
modify_ignores_rules e id purpose first rest (suc n) now db {c} {p} there live known named short
      no_event no_log one room early =
    let ch : Changes = record {
      new_purpose = some purpose;
      new_data_types = some (first ∷ rest);
      new_duration_days = some (pos (suc n));
    } in
    let t = e.now + suc n * day in
    let named' : truthy (some purpose) ≡ some purpose = ground (arith, ==_iff purpose "", named) in
    let fitting : fits_given (some purpose) ≡ true = ground (arith, named') in
    let free : is_free e db ≡ true = ground arith in
    let dated : after_days e.now (pos (suc n)) ≡ ok t = after_days_lem e.now (suc n) room in
    let c' = modified_as e.new_hash ch (some t) c in
    let db' =
      log e id c' consent_modified "CONSENT_MODIFIED" p.wallet_address (some c.status) none none
        (put id c' db) in
    (
      db',
      c',
      rw (modify_consent, there, live, dated, known, fitting, free) refl,
      ap (λ o. elim o [ none ↦ c.purpose | some x ↦ x ]) named',
      refl,
      live_is_valid now id c' db' (lookup-insert_self id c' db.consents) refl (ground arith),
    )
modify_ignores_rules e id purpose first rest zero now db there live known named short no_event
      no_log one room early =
    absurd (omega arith)
