-- ===== src/Isolation.antt =====
-- The rows of one fiduciary, api/middleware/tenant_isolation.py: the context of a request, and
-- `TenantRepository`. A row is the dictionary of its columns, each of them a text; the columns of the
-- model are an argument, as is the hash of an API key. Identifiers are given, and so count as true.
pub mod Borders
mod Tests
use Prim.Native.String.{String}
use consentchain.Prelude.{
  Bool, true, false, not, ◌&&◌, ◌||◌, Option, none, some, List, [], ◌∷◌, if◌then◌else◌, Dict,
  lookup, insert, erase, contains, ◌==◌, string_eq, is_in, keep,
}

pub record TenantContext : Type 0 where
  pub fiduciary_id : String
  pub name : String
  pub wallet_address : String
  pub tier : String
  pub is_admin : Bool

abbrev pub Row : Type 0
Row = Dict String String

-- What `_validate_api_key` reads of a fiduciary, and its hashed key.
pub record Fiduciary : Type 0 where
  pub id : String
  pub name : String
  pub wallet_address : String
  pub api_key_hash : String

-- No two fiduciaries have the same hash; on two the query would raise.
unfoldable pub validate_api_key : String → List Fiduciary → Option TenantContext
validate_api_key api_key_hash [] = none
validate_api_key api_key_hash (f ∷ fs) =
    if f.api_key_hash == api_key_hash
    then some (record {
      fiduciary_id = f.id;
      name = f.name;
      wallet_address = f.wallet_address;
      tier = "free";
      is_admin = false;
    })
    else validate_api_key api_key_hash fs

-- `dispatch`: the context that the request is handled in. The bearer's key is given by its hash.
unfoldable pub context_of : String → String → Option String → List Fiduciary → Option TenantContext
context_of path method bearer_hash fiduciaries =
    if is_in path
        ("/" ∷ "/health" ∷ "/docs" ∷ "/openapi.json" ∷ "/redoc" ∷ "/api/v1/fiduciary/register" ∷ [])
      || method == "OPTIONS"
    then none
    else elim bearer_hash [ none ↦ none | some hash ↦ validate_api_key hash fiduciaries ]

-- The value of a column; none where the row has no such column.
abbrev pub has_value : String → String → Row → Bool
has_value column value row = elim (lookup column row) [ none ↦ false | some x ↦ x == value ]

-- `tenant_id`: of the context, or else the one that was set.
abbrev pub tenant_id : Option TenantContext → Option String → Option String
tenant_id none own = own
tenant_id (some c) own = some c.fiduciary_id

-- `_apply_tenant_filter`, by the column that is named.
abbrev pub is_within : Option String → String → Row → Bool
is_within none field row = true
is_within (some t) field row = has_value field t row

-- The default of `tenant_field`.
abbrev pub tenant_field : String
tenant_field = "fiduciary_id"

-- `tenant_filtered_query`
abbrev pub is_visible : Option TenantContext → String → Row → Bool
is_visible none field row = true
is_visible (some c) field row = if c.is_admin then true else has_value field c.fiduciary_id row

-- The table, by the identifiers of its rows.
abbrev pub Table : Type 0
Table = Dict String Row

unfoldable pub get : Option String → String → String → Table → Option Row
get tenant field id table = elim (lookup id table) [
  | none ↦ none
  | some row ↦ if is_within tenant field row then some row else none
]

-- The filters whose column the model has; a value of none is passed over.
unfoldable pub passes : List String → Dict String (Option String) → Row → Bool
passes columns [] row = true
passes columns ((key, none) ∷ filters) row = passes columns filters row
passes columns ((key, some value) ∷ filters) row =
    (if is_in key columns then has_value key value row else true) && passes columns filters row

unfoldable pub list :
    List String → Option String → String → Dict String (Option String) → Table → List (String × Row)
list columns tenant field filters table =
    keep (λ entry. passes columns filters entry.1)
      (keep (λ entry. is_within tenant field entry.1) table)

-- A new row under a new identifier.
unfoldable pub create : Option String → String → Row → Table → Table × Row
create tenant new_id given table =
    let row : Row = elim tenant [
      | none ↦ given
      | some t ↦ if contains "fiduciary_id" given then given else insert "fiduciary_id" t given
    ] in
    (insert new_id row table, row)

-- The loop over the given values: those of columns that the row has are set.
unfoldable pub set_values : List String → Row → Row → Row
set_values columns [] row = row
set_values columns ((key, value) ∷ given) row =
    set_values columns given (if is_in key columns then insert key value row else row)

unfoldable pub update : List String → Option String → String → Row → Table → Table × Option Row
update columns tenant id given table = elim (get tenant tenant_field id table) [
  | none ↦ (table, none)
  | some row ↦ (insert id (set_values columns given row) table, some (set_values columns given row))
]

unfoldable pub delete : Option String → String → Table → Table × Bool
delete tenant id table = elim (get tenant tenant_field id table) [
  | none ↦ (table, false)
  | some row ↦ (erase id table, true)
]
