-- ===== src/Consents/Runs.antt =====
-- Calls of the service one after another, and the state machine of a consent that they implement.
use Prim.Native.String.{String}
use consentchain.Prelude.{
  ℕ, ◌≡◌, ◌≢◌, inl, inr, true, false, Option, none, some, arith, Dict, lookup, string_eq,
  Option-cases, Bool-cases, ok, after, or_raise, ◌>>=◌,
}
use consentchain.Consents.{
  Status, granted, revoked, modified, expired, EventType, consent_granted, consent_revoked,
  consent_modified, Consent, Principal, Fiduciary, Db, empty_db, is_revoked, log, put, Env, Request,
  Changes, create_consent, revoke_consent, modify_consent, verify_consent, by_wallet, Verdict,
  was_revoked, was_expired, attribute_error,
}
use consentchain.Consents.Accounts.{register_principal, register_fiduciary, has_number, has_wallet}
use consentchain.Consents.Cases.{is_live, create_cases, revoke_cases, modify_cases, verify_cases}

pub data Op : Type 0 where
  registers_principal : String → String → String → Option String → Op
  registers_fiduciary : String → Fiduciary → Op
  creates : Env → Request → Op
  revokes : Env → String → Op
  modifies : Env → String → Changes → Op
  verifies : ℕ → String → Op

-- A call with what it leaves in the database.
unfoldable pub step : Op → Db → Db
step (registers_principal id w e p) db = after db (register_principal id w e p db)
step (registers_fiduciary id f) db = after db (register_fiduciary id f db)
step (creates e r) db = after db (create_consent e r db)
step (revokes e id) db = after db (revoke_consent e id db)
step (modifies e id ch) db = after db (modify_consent e id ch db)
step (verifies now id) db = after db (verify_consent now id db)

-- The identifier of a new consent is not in the table.
abbrev pub IsFresh : Op → Db → Type 0
IsFresh (creates e r) db = lookup e.new_id db.consents ≡ none
IsFresh op db = Unit {0}

pub data Steps : Db → Db → Type 0 where
  here : {db : Db} → Steps db db
  next : {db db' : Db} (op : Op) → Steps db db' → IsFresh op db' → Steps db (step op db')

abbrev pub Reach : Db → Type 0
Reach db = Steps empty_db db

abbrev pub status_of : String → Dict String Consent → Option Status
status_of id cs = elim (lookup id cs) [ none ↦ none | some c ↦ some c.status ]

-- The moves of a consent that are recorded: the status before, the event, the action in the audit
-- log, and the status after.
pub data Move : Option Status → EventType → String → Status → Type 0 where
  grant : Move none consent_granted "CONSENT_CREATED" granted
  revoke :
      {s : Status} → is_revoked s ≡ false → Move (some s) consent_revoked "CONSENT_REVOKED" revoked
  modify :
      {s : Status}
      → is_revoked s ≡ false
      → Move (some s) consent_modified "CONSENT_MODIFIED" modified

pub not_revoked :
    {before : Option Status} {ty : EventType} {action : String} {after : Status}
    → Move before ty action after
    → before ≢ some revoked
not_revoked grant e = ground arith
not_revoked (revoke live) e = ground arith
not_revoked (modify live) e = ground arith

-- What one call does to consents, events and audit logs: nothing, a recorded move of one consent, or
-- a silent expiry.
pub data Effect : Db → Db → Type 0 where
  rests :
      {db : Db} (ps : Dict String Principal) (fs : Dict String Fiduciary)
      → Effect db (record db { principals = ps; fiduciaries = fs })
  moves :
      {db : Db} (e : Env) (id : String) (c : Consent) (ty : EventType) (action actor : String)
      (before : Option Status) (tx reference : Option String)
      → status_of id db.consents ≡ before
      → Move before ty action c.status
      → Effect db (log e id c ty action actor before tx reference (put id c db))
  lapses :
      {db : Db} (id : String) (c : Consent)
      → lookup id db.consents ≡ some c
      → is_live c.status ≡ true
      → Effect db (put id (record c { status = expired }) db)

unchanged : (db : Db) → Effect db db
unchanged db = rests db.principals db.fiduciaries

pub before_is :
    (id : String) (db : Db) {c : Consent}
    → lookup id db.consents ≡ some c
    → status_of id db.consents ≡ some c.status
before_is id db e = ground arith

-- Every call of the service, with whatever outcome, makes a move of the state machine: it is refused
-- or concerns no consent, or it is a recorded move of one consent that the status allows, or the silent
-- expiry of one consent.
pub step-Effect : (op : Op) (db : Db) → IsFresh op db → Effect db (step op db)
unfolding step register_principal register_fiduciary
step-Effect (registers_principal id w e p) db fresh =
    elim (Option-cases (by_wallet w db.principals)) [
      | inl absent ↦ rw (register_principal, absent) (rests _ _)
      | inr (q, there) ↦ rw (register_principal, there) (unchanged db)
    ]
step-Effect (registers_fiduciary id f) db fresh =
    elim (Bool-cases (has_number f.registration_number db.fiduciaries)) [
      | inl e ↦ rw (register_fiduciary, e) (unchanged db)
      | inr e ↦ elim (Bool-cases (has_wallet f.wallet_address db.fiduciaries)) [
        | inl e' ↦ rw (register_fiduciary, e, e') (unchanged db)
        | inr e' ↦ rw (register_fiduciary, e, e') (rests _ _)
      ]
    ]
step-Effect (creates e r) db fresh =
    create_cases (λ x. Effect db (after db x)) e r db (λ x. unchanged db)
      λ p f t tx allowed timely known there dated answered short new.
        moves e _ _ _ _ _ _ _ _ (ground arith) grant
step-Effect (revokes e id) db fresh =
    revoke_cases (λ x. Effect db (after db x)) e id db (λ x. unchanged db)
      λ c p tx there live known answered.
        moves e _ _ _ _ _ _ _ _ (before_is id db there) (revoke live)
step-Effect (modifies e id ch) db fresh =
    modify_cases (λ x. Effect db (after db x)) e id ch db (λ x. unchanged db)
      λ c p t there live dated known. moves e _ _ _ _ _ _ _ _ (before_is id db there) (modify live)
step-Effect (verifies now id) db fresh =
    verify_cases (λ x. Effect db (after db x)) now id db (λ absent. unchanged db)
      (λ c there st. shown c.revoked_at was_revoked) (λ c there st. shown c.expires_at was_expired)
      (λ c t there live at late. lapses id c there live) λ c there live early. unchanged db
  where
    shown :
        (o : Option ℕ) (f : ℕ → Verdict)
        → Effect db (after db (or_raise o attribute_error >>= (λ t. ok (db, f t))))
    shown none f = unchanged db
    shown (some t) f = unchanged db
