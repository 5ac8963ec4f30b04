-- ===== src/Consents/Queries.antt =====
-- Queries, api/services.py: `query_consents`, `get_consent_history` and `get_audit_trail`. The sorting
-- by the database, `order_by(created_at.desc())`, is an argument of each query: of rows with the same
-- time it may give any first, and another one at the next query.
use Prim.Native.String.{String}
use consentchain.Prelude.{
  ℕ, ◌-◌, ◌*◌, Bool, true, ◌&&◌, Option, none, some, List, [], leb, eqb, if◌then◌else◌, ◌==◌,
  string_eq, keep, take, drop, reverse, truthy, Result, require, ◌>>◌, ◌||◌, ok, err,
}
use consentchain.Consents.{
  Status, granted, revoked, modified, pending, expired, Consent, Event, Audit, Db, Error,
  database_error, value_error,
}

module _ {A : Type 0} where
  -- `offset((page - 1) * limit).limit(limit)`; the database refuses a negative offset.
  abbrev pub page_of : ℕ → ℕ → List A → Result Error (List A)
  page_of page limit xs =
      if eqb page 0
      then (if eqb limit 0 then ok [] else err database_error)
      else ok (take limit (drop ((page - 1) * limit) xs))

-- `Model.column == value`, unless the value is none or empty.
abbrev pub matches : Option String → String → Bool
matches given column = elim (truthy given) [ none ↦ true | some x ↦ column == x ]

abbrev pub from_on : Option ℕ → ℕ → Bool
from_on none t = true
from_on (some a) t = leb a t

abbrev pub until : Option ℕ → ℕ → Bool
until none t = true
until (some b) t = leb t b

abbrev pub status_name : Status → String
status_name granted = "GRANTED"
status_name revoked = "REVOKED"
status_name modified = "MODIFIED"
status_name pending = "PENDING"
status_name expired = "EXPIRED"

-- `ConsentStatusDB(status)` raises on any other text.
abbrev pub is_status : Option String → Bool
is_status given = elim (truthy given) [
  | none ↦ true
  | some x ↦ x == "GRANTED" || x == "REVOKED" || x == "MODIFIED" || x == "PENDING" || x == "EXPIRED"
]

pub record Filter : Type 0 where
  pub principal_id : Option String
  pub fiduciary_id : Option String
  pub status : Option String
  pub purpose : Option String
  pub from_date : Option ℕ
  pub to_date : Option ℕ

abbrev pub selects : Filter → String × Consent → Bool
selects f row =
    let c = row.1 in
    matches f.principal_id c.principal_id
    && matches f.fiduciary_id c.fiduciary_id
    && matches f.status (status_name c.status)
    && matches f.purpose c.purpose
    && from_on f.from_date c.created_at
    && until f.to_date c.created_at

abbrev pub row_time : String × Consent → ℕ
row_time row = row.1.created_at

unfoldable pub query_consents :
    (List (String × Consent) → List (String × Consent))
    → Filter
    → ℕ
    → ℕ
    → Db
    → Result Error (List (String × Consent))
query_consents sort f page limit db = do
  require (is_status f.status) value_error
  page_of page limit (sort (keep (selects f) db.consents))

-- The events of a consent in their order: the table has the latest first.
unfoldable pub get_consent_history : String → Db → List Event
get_consent_history id db = reverse (keep (λ e. e.consent_id == id) db.events)

pub record Trail : Type 0 where
  pub principal_id : Option String
  pub fiduciary_id : Option String
  pub event_type : Option String
  pub from_date : Option ℕ
  pub to_date : Option ℕ

-- The identifier of a consent that the caller gives is not asked for.
abbrev pub selects_log : Trail → Audit → Bool
selects_log f a =
    matches f.principal_id a.principal_id
    && matches f.fiduciary_id a.fiduciary_id
    && matches f.event_type a.action
    && from_on f.from_date a.created_at
    && until f.to_date a.created_at

unfoldable pub get_audit_trail :
    (List Audit → List Audit) → Trail → ℕ → ℕ → Db → Result Error (List Audit)
get_audit_trail sort f page limit db = page_of page limit (sort (keep (selects_log f) db.audits))
