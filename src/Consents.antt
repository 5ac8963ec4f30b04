-- ===== src/Consents.antt =====
-- The consents of the database, api/services.py, `ConsentService`, with the columns and the constraints
-- of api/database.py. A call that raises commits nothing. Times are microseconds since the year 1;
-- the clock, the new identifiers, the hash with its random nonce, and the answer of the chain's client
-- (none where it raises) are arguments. Left out of the rows: contact data, application ids,
-- signatures, metadata and the time of an update.
pub mod Data
pub mod Accounts
pub mod Cases
pub mod Runs
pub mod History
pub mod Finality
pub mod Validity
pub mod Queries
pub mod Sorting
pub mod Paging
pub mod Reports
pub mod Scores
pub mod Roots
pub mod Anchors
mod Tests
pub mod Creation
pub mod Soundness
use Prim.Native.String.{String}
use consentchain.Prelude.{
  ℕ, zero, suc, ◌+◌, ◌-◌, ◌*◌, Bool, true, false, Option, none, some, List, [], ◌∷◌, ltb,
  if◌then◌else◌, ℤ, pos, negsuc, Dict, lookup, insert, ◌==◌, string_eq, Result, ok, err, ◌>>=◌,
  ◌>>◌, or_raise, require, truthy, not, ◌&&◌, contains, is_in, map, leb,
}
use consentchain.Dpdp.{Violation, Reason, validate_consent_purpose, validate_consent_duration}
unfoldable pub use Data.*

-- A text that is too long for its column, or a primary key that is taken, is refused by the database
-- when the rows are written. An unknown wallet: the row that is flushed has no `email_hash`, which may not be null.
unfoldable pub create_consent : Env → Request → Db → Result Error (Db × Consent)
create_consent e r db = do
  let purpose = validate_consent_purpose r.purpose r.data_types
  require purpose.0 (compliance_violation purpose.1)
  let duration = validate_consent_duration r.duration_days r.purpose
  require duration.0 (invalid_duration duration.1)
  principal ← or_raise (by_wallet r.principal_wallet db.principals) integrity_error
  fiduciary ← or_raise (lookup r.fiduciary_id db.fiduciaries) fiduciary_not_found
  expires_at ← after_days e.now r.duration_days
  tx_id ← or_raise e.tx chain_error
  require (fits 50 r.purpose && fits 64 tx_id) database_error
  require (not (contains e.new_id db.consents) && is_free e db) integrity_error
  let c = new_consent e r principal.0 expires_at tx_id
  ok (
    log e e.new_id c consent_granted "CONSENT_CREATED" r.principal_wallet none (some tx_id)
        (some tx_id) (put e.new_id c db),
    c,
  )

abbrev pub revoked_as : ℕ → String → Consent → Consent
revoked_as now tx_id c = record c {
  status = revoked;
  revoked_at = some now;
  on_chain_tx_id = some tx_id;
}

unfoldable pub revoke_consent : Env → String → Db → Result Error (Db × Consent)
revoke_consent e id db = do
  c ← or_raise (lookup id db.consents) consent_not_found
  require (not (is_revoked c.status)) already_revoked
  principal ← or_raise (lookup c.principal_id db.principals) attribute_error
  tx_id ← or_raise e.tx chain_error
  require (fits 64 tx_id) database_error
  require (is_free e db) integrity_error
  let c' = revoked_as e.now tx_id c
  ok (
    log e id c' consent_revoked "CONSENT_REVOKED" principal.wallet_address (some c.status)
        (some tx_id) (some tx_id) (put id c' db),
    c',
  )

pub record Changes : Type 0 where
  pub new_purpose : Option String
  pub new_data_types : Option (List String)
  pub new_duration_days : Option ℤ

-- `if new_purpose`, `if new_data_types`, `if new_duration_days`: what is none, empty or zero is kept.
abbrev pub purpose_after : Option String → String → String
purpose_after given old = elim (truthy given) [ none ↦ old | some p ↦ p ]

abbrev pub types_after : Option (List String) → List String → List String
types_after none old = old
types_after (some []) old = old
types_after (some (t ∷ ts)) old = t ∷ ts

abbrev pub expiry_after : ℕ → Option ℤ → Option ℕ → Result Error (Option ℕ)
expiry_after now none old = ok old
expiry_after now (some (pos zero)) old = ok old
expiry_after now (some d) old = after_days now d >>= (λ t. ok (some t))

-- A new purpose fits in its column.
abbrev pub fits_given : Option String → Bool
fits_given given = elim (truthy given) [ none ↦ true | some p ↦ fits 50 p ]

abbrev pub modified_as : String → Changes → Option ℕ → Consent → Consent
modified_as new_hash ch expires c = record c {
  purpose = purpose_after ch.new_purpose c.purpose;
  data_types = types_after ch.new_data_types c.data_types;
  expires_at = expires;
  status = modified;
  consent_hash = new_hash;
}

unfoldable pub modify_consent : Env → String → Changes → Db → Result Error (Db × Consent)
modify_consent e id ch db = do
  c ← or_raise (lookup id db.consents) consent_not_found
  require (not (is_revoked c.status)) cannot_modify_revoked
  expires ← expiry_after e.now ch.new_duration_days c.expires_at
  principal ← or_raise (lookup c.principal_id db.principals) attribute_error
  require (fits_given ch.new_purpose) database_error
  require (is_free e db) integrity_error
  let c' = modified_as e.new_hash ch expires c
  ok (
    log e id c' consent_modified "CONSENT_MODIFIED" principal.wallet_address (some c.status) none
        none (put id c' db),
    c',
  )

pub data Verdict : Type 0 where
  valid : Consent → Verdict
  is_unknown : Verdict
  was_revoked was_expired : ℕ → Verdict

abbrev pub is_past : ℕ → Option ℕ → Bool
is_past now none = false
is_past now (some t) = ltb t now

-- The test of the expiry, on a consent that is neither revoked nor expired.
abbrev pub check_expiry : ℕ → String → Consent → Db → Result Error (Db × Verdict)
check_expiry now id c db =
    if is_past now c.expires_at
    then or_raise c.expires_at attribute_error
      >>= (λ t. ok (put id (record c { status = expired }) db, was_expired t))
    else ok (db, valid c)

abbrev pub check_status : ℕ → String → Consent → Db → Status → Result Error (Db × Verdict)
check_status now id c db revoked =
    or_raise c.revoked_at attribute_error >>= (λ t. ok (db, was_revoked t))
check_status now id c db expired =
    or_raise c.expires_at attribute_error >>= (λ t. ok (db, was_expired t))
check_status now id c db s = check_expiry now id c db

unfoldable pub verify_consent : ℕ → String → Db → Result Error (Db × Verdict)
verify_consent now id db = elim (lookup id db.consents) [
  | none ↦ ok (db, is_unknown)
  | some c ↦ check_status now id c db c.status
]
