-- ===== src/Tenant/Usage.antt =====
-- The metering half of `TenantService`, api/tenant/__init__.py: usage records, their summary, the
-- quota check and the listing.
use Prim.Native.String.{String}
use consentchain.Prelude.{
  ℕ, ◌+◌, ℤ, below, is_minus_one, remaining_of, Bool, true, false, not, ◌&&◌, Option, none, some,
  List, [], ◌∷◌, ◌++◌, ltb, if◌then◌else◌, Dict, lookup, insert, ◌==◌, string_eq, nat_eq, or_else,
}
use consentchain.Tenant.{UsageRecord, Service, get_limit}

unfoldable pub record_usage : ℕ → ℕ → String → ℕ → Service → Service × UsageRecord
record_usage now tenant_id resource_type quantity s =
    let r : UsageRecord = record {
      tenant_id = tenant_id;
      resource_type = resource_type;
      quantity = quantity;
      timestamp = now;
    } in
    (
      record s {
        usage = insert tenant_id (or_else (lookup tenant_id s.usage) [] ++ (r ∷ [])) s.usage;
      },
      r,
    )

-- A date that was given and that the test holds of.
abbrev pub given : (ℕ → Bool) → Option ℕ → Bool
given p none = false
given p (some d) = p d

-- The tests of the loop of `get_usage`, none of which skips the record.
abbrev pub counts : Option String → Option ℕ → Option ℕ → UsageRecord → Bool
counts resource_type start_date end_date r =
    not (elim resource_type [ none ↦ false | some t ↦ not (t == "") && not (r.resource_type == t) ])
    && not (given (λ d. ltb r.timestamp d) start_date)
    && not (given (λ d. ltb d r.timestamp) end_date)

abbrev pub add_usage : UsageRecord → Dict String ℕ → Dict String ℕ
add_usage r summary =
    insert r.resource_type (or_else (lookup r.resource_type summary) 0 + r.quantity) summary

unfoldable pub summarise : (UsageRecord → Bool) → List UsageRecord → Dict String ℕ → Dict String ℕ
summarise p [] summary = summary
summarise p (r ∷ rs) summary = summarise p rs (if p r then add_usage r summary else summary)

unfoldable pub get_usage : ℕ → Option String → Option ℕ → Option ℕ → Service → Dict String ℕ
get_usage tenant_id resource_type start_date end_date s =
    summarise (counts resource_type start_date end_date) (or_else (lookup tenant_id s.usage) []) []

abbrev pub get_monthly_usage : ℕ → ℕ → Service → Dict String ℕ
get_monthly_usage start_of_month tenant_id s = get_usage tenant_id none (some start_of_month) none s

-- The dict that `check_quota` returns.
pub data Quota : Type 0 where
  tenant_not_found unknown_resource no_limit : Quota
  limited : (allowed : Bool) (limit : ℤ) (current remaining : ℕ) → Quota

abbrev pub is_allowed : Quota → Bool
is_allowed tenant_not_found = false
is_allowed unknown_resource = true
is_allowed no_limit = true
is_allowed (limited a l c r) = a

abbrev pub quota_map : Dict String String
quota_map =
    ("consent", "max_consents_per_month")
    ∷ ("api_call", "max_api_calls_per_month")
    ∷ ("fiduciary", "max_fiduciaries")
    ∷ ("webhook", "max_webhooks")
    ∷ ("team_member", "max_team_members")
    ∷ []

unfoldable pub check_quota : ℕ → ℕ → String → Service → Quota
check_quota start_of_month tenant_id resource_type s = elim (lookup tenant_id s.tenants) [
  | none ↦ tenant_not_found
  | some tenant ↦ elim (lookup resource_type quota_map) [
    | none ↦ unknown_resource
    | some limit_key ↦
        let limit = get_limit tenant limit_key in
        let current =
          or_else (lookup resource_type (get_monthly_usage start_of_month tenant_id s)) 0 in
        if is_minus_one limit
        then no_limit
        else limited (below current limit) limit current (remaining_of limit current)
  ]
]
