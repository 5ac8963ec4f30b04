-- ===== src/Tenant/Plans.antt =====
-- Plans and what they allow: TenantPlan, TenantStatus, BillingCycle and PLAN_LIMITS of
-- api/tenant/__init__.py.
use Prim.Native.String.{String}
use consentchain.Prelude.{ℤ, pos, negsuc, List, [], ◌∷◌, Dict}

pub data TenantPlan : Type 0 where
  free starter professional enterprise custom : TenantPlan

pub data TenantStatus : Type 0 where
  trial active suspended cancelled : TenantStatus

pub data BillingCycle : Type 0 where
  monthly yearly by_contract : BillingCycle

abbrev pub limits_table : ℤ → ℤ → ℤ → ℤ → ℤ → ℤ → Dict String ℤ
limits_table fiduciaries consents calls webhooks members days =
    ("max_fiduciaries", fiduciaries)
    ∷ ("max_consents_per_month", consents)
    ∷ ("max_api_calls_per_month", calls)
    ∷ ("max_webhooks", webhooks)
    ∷ ("max_team_members", members)
    ∷ ("retention_days", days)
    ∷ []

abbrev pub unlimited : ℤ
unlimited = negsuc 0

-- The numbers of PLAN_LIMITS.
unfoldable pub plan_limits : TenantPlan → Dict String ℤ
plan_limits free = limits_table (pos 1) (pos 100) (pos 1000) (pos 2) (pos 1) (pos 30)
plan_limits starter = limits_table (pos 3) (pos 1000) (pos 10000) (pos 5) (pos 3) (pos 90)
plan_limits professional =
    limits_table (pos 10) (pos 10000) (pos 100000) (pos 20) (pos 10) (pos 365)
plan_limits enterprise = limits_table unlimited unlimited unlimited unlimited unlimited (pos 2555)
plan_limits custom = limits_table unlimited unlimited unlimited unlimited unlimited (pos 2555)

-- The "features" of PLAN_LIMITS.
unfoldable pub plan_features : TenantPlan → List String
plan_features free = "basic_consent" ∷ "basic_audit" ∷ []
plan_features starter = "basic_consent" ∷ "basic_audit" ∷ "webhooks" ∷ "export" ∷ []
plan_features professional =
    "basic_consent" ∷ "basic_audit" ∷ "webhooks" ∷ "export" ∷ "analytics" ∷ "templates"
    ∷ "multi_language" ∷ "api_access" ∷ []
plan_features enterprise =
    "basic_consent" ∷ "basic_audit" ∷ "webhooks" ∷ "export" ∷ "analytics" ∷ "templates"
    ∷ "multi_language" ∷ "api_access" ∷ "sso" ∷ "custom_branding" ∷ "priority_support"
    ∷ "dedicated_instance" ∷ "audit_export" ∷ "compliance_reports" ∷ "api_rate_limit_custom" ∷ []
plan_features custom = "*" ∷ []
