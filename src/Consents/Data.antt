-- ===== src/Consents/Data.antt =====
-- The tables and the requests of the consent service, api/database.py and api/services.py, and the rows
-- that its operations write.
use Prim.Native.String.{String}
use consentchain.Prelude.{
  ℕ, suc, ◌+◌, ◌-◌, ◌*◌, Bool, true, false, Option, none, some, List, [], ◌∷◌, ltb, if◌then◌else◌,
  ℤ, pos, negsuc, Dict, insert, ◌==◌, string_eq, Result, ok, err, leb, not, ◌&&◌, is_in, map,
}
use consentchain.Dpdp.{Violation, Reason}

-- `ConsentStatusDB`
pub data Status : Type 0 where
  granted revoked modified pending expired : Status

-- `EventTypeDB`
pub data EventType : Type 0 where
  consent_granted consent_revoked consent_modified data_access data_deletion : EventType

pub record Principal : Type 0 where
  pub wallet_address : String
  pub email_hash : String
  pub phone_hash : Option String

pub record Fiduciary : Type 0 where
  pub name : String
  pub registration_number : String
  pub wallet_address : String
  pub api_key_hash : String

pub record Consent : Type 0 where
  pub principal_id : String
  pub fiduciary_id : String
  pub purpose : String
  pub data_types : List String
  pub status : Status
  pub granted_at : ℕ
  pub expires_at : Option ℕ
  pub revoked_at : Option ℕ
  pub on_chain_tx_id : Option String
  pub consent_hash : String
  pub created_at : ℕ

pub record Event : Type 0 where
  pub id : String
  pub consent_id : String
  pub event_type : EventType
  pub actor : String
  pub previous_status : Option Status
  pub new_status : Status
  pub tx_id : Option String
  pub created_at : ℕ

pub record Audit : Type 0 where
  pub id : String
  pub principal_id : String
  pub fiduciary_id : String
  pub action : String
  pub resource_id : String
  pub on_chain_reference : Option String
  pub created_at : ℕ

-- The tables by their keys; the events and the audit logs with the latest row first.
pub record Db : Type 0 where
  pub principals : Dict String Principal
  pub fiduciaries : Dict String Fiduciary
  pub consents : Dict String Consent
  pub events : List Event
  pub audits : List Audit

abbrev pub empty_db : Db
empty_db = record { principals = []; fiduciaries = []; consents = []; events = []; audits = [] }

pub data Error : Type 0 where
  principal_registered fiduciary_registered fiduciary_not_found consent_not_found : Error
  already_revoked cannot_modify_revoked : Error
  compliance_violation : List Violation → Error
  invalid_duration : Option Reason → Error
  integrity_error database_error value_error index_error overflow_error attribute_error
        chain_error :
      Error

abbrev pub is_revoked : Status → Bool
is_revoked revoked = true
is_revoked s = false

abbrev pub day : ℕ
day = 86400000000

-- `datetime.max`, the end of the year 9999.
abbrev pub max_time : ℕ
max_time = 315537897599999999

-- `datetime.utcnow() + timedelta(days=d)`
unfoldable pub after_days : ℕ → ℤ → Result Error ℕ
after_days now (pos d) =
    if ltb max_time (now + d * day) then err overflow_error else ok (now + d * day)
after_days now (negsuc d) =
    if ltb now (suc d * day) then err overflow_error else ok (now - suc d * day)

-- The characters of a text.
unfoldable pub characters : String → ℕ
characters String.[] = 0
characters (String.◌∷◌ c s) = suc (characters s)

-- A column `String(n)` of PostgreSQL, the default, takes no longer text.
abbrev pub fits : ℕ → String → Bool
fits n s = leb (characters s) n

-- The row with a wallet address, which is unique.
unfoldable pub by_wallet : String → Dict String Principal → Option (String × Principal)
by_wallet wallet [] = none
by_wallet wallet ((id, p) ∷ ps) =
    if p.wallet_address == wallet then some (id, p) else by_wallet wallet ps

-- What a call is given from outside. The hash is a digest, which fills its column.
pub record Env : Type 0 where
  pub now : ℕ
  pub new_id : String
  pub event_id : String
  pub audit_id : String
  pub new_hash : String
  pub tx : Option String

-- The new event and the new audit log have primary keys that no row has.
abbrev pub is_free : Env → Db → Bool
is_free e db =
    not (is_in e.event_id (map (λ x. x.id) db.events))
    && not (is_in e.audit_id (map (λ a. a.id) db.audits))

-- `_create_event` and `_log_audit`, which every caller calls together.
abbrev pub log :
    Env
    → String
    → Consent
    → EventType
    → String
    → String
    → Option Status
    → Option String
    → Option String
    → Db
    → Db
log e id c ty action actor previous tx reference db = record db {
  events =
      record {
        id = e.event_id;
        consent_id = id;
        event_type = ty;
        actor = actor;
        previous_status = previous;
        new_status = c.status;
        tx_id = tx;
        created_at = e.now;
      }
      ∷ db.events;
  audits =
      record {
        id = e.audit_id;
        principal_id = c.principal_id;
        fiduciary_id = c.fiduciary_id;
        action = action;
        resource_id = id;
        on_chain_reference = reference;
        created_at = e.now;
      }
      ∷ db.audits;
}

abbrev pub put : String → Consent → Db → Db
put id c db = record db { consents = insert id c db.consents }

pub record Request : Type 0 where
  pub principal_wallet : String
  pub fiduciary_id : String
  pub purpose : String
  pub data_types : List String
  pub duration_days : ℤ

abbrev pub new_consent : Env → Request → String → ℕ → String → Consent
new_consent e r principal_id expires_at tx_id = record {
  principal_id = principal_id;
  fiduciary_id = r.fiduciary_id;
  purpose = r.purpose;
  data_types = r.data_types;
  status = granted;
  granted_at = e.now;
  expires_at = some expires_at;
  revoked_at = none;
  on_chain_tx_id = some tx_id;
  consent_hash = e.new_hash;
  created_at = e.now;
}
