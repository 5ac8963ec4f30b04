-- ===== src/Tenant.antt =====
-- Tenants and their quotas, api/tenant/__init__.py: `Tenant` and `TenantService`. Identifiers that
-- `uuid4` draws, and times, are arguments; the first instant of the current month is one too.
-- Quantities are counts. The service holds the only table of tenant objects, so a tenant is a value
-- in it. Fields that no operation here reads are left out: settings, usage, branding, the
-- identifiers at Stripe, and the identifier and metadata of a usage record.
mod Plans
pub mod Usage
pub mod Slugs
pub mod Renaming
pub mod Metering
pub mod Features
mod Tests
unfoldable pub use Plans.*
use Prim.Native.String.{String}
use consentchain.Prelude.{
  ℕ, ◌+◌, ◌*◌, ℤ, pos, below, is_minus_one, remaining_of, Bool, true, false, not, ◌&&◌, ◌||◌,
  Option, none, some, List, [], ◌∷◌, ◌++◌, map, ltb, if◌then◌else◌, keep, Dict, lookup, insert,
  contains, ◌==◌, string_eq, nat_eq, Result, ok, err, is_in, or_else,
}

pub record Tenant : Type 0 where
  pub id : ℕ
  pub name : String
  pub slug : String
  pub plan : TenantPlan
  pub status : TenantStatus
  pub billing_email : String
  pub billing_cycle : BillingCycle
  pub created_at : ℕ
  pub updated_at : ℕ
  pub trial_ends_at : Option ℕ
  pub subscription_ends_at : Option ℕ
  pub limits : Dict String ℤ
  pub custom_domain : Option String

pub record UsageRecord : Type 0 where
  pub tenant_id : ℕ
  pub resource_type : String
  pub quantity : ℕ
  pub timestamp : ℕ

pub record Service : Type 0 where
  pub tenants : Dict ℕ Tenant
  pub slug_index : Dict String ℕ
  pub usage : Dict ℕ (List UsageRecord)

pub data Error : Type 0 where
  slug_exists : String → Error

abbrev pub new_service : Service
new_service = record { tenants = []; slug_index = []; usage = [] }

abbrev pub days : ℕ → ℕ
days n = n * 86400

unfoldable pub get_limit : Tenant → String → ℤ
get_limit t limit_name = elim (lookup limit_name t.limits) [
  | none ↦ or_else (lookup limit_name (plan_limits t.plan)) (pos 0)
  | some l ↦ l
]

unfoldable pub has_feature : Tenant → String → Bool
has_feature t feature = is_in "*" (plan_features t.plan) || is_in feature (plan_features t.plan)

-- `Tenant.check_quota`
unfoldable pub within_quota : Tenant → String → ℕ → Bool
within_quota t quota_name current_usage =
    let limit = get_limit t quota_name in is_minus_one limit || below current_usage limit

abbrev pub new_tenant :
    ℕ → ℕ → String → String → TenantPlan → String → BillingCycle → Dict String ℤ → Tenant
new_tenant id now name slug plan billing_email billing_cycle custom_limits = record {
  id = id;
  name = name;
  slug = slug;
  plan = plan;
  status = trial;
  billing_email = billing_email;
  billing_cycle = billing_cycle;
  created_at = now;
  updated_at = now;
  trial_ends_at = some (now + days 14);
  subscription_ends_at = none;
  limits = custom_limits;
  custom_domain = none;
}

unfoldable pub create_tenant :
    ℕ
    → ℕ
    → String
    → String
    → TenantPlan
    → String
    → BillingCycle
    → Dict String ℤ
    → Service
    → Result Error (Service × Tenant)
create_tenant id now name slug plan billing_email billing_cycle custom_limits s =
    let tenant = new_tenant id now name slug plan billing_email billing_cycle custom_limits in
    if contains slug s.slug_index
    then err (slug_exists slug)
    else ok (
      record {
        tenants = insert id tenant s.tenants;
        slug_index = insert slug id s.slug_index;
        usage = insert id [] s.usage;
      },
      tenant,
    )

unfoldable pub get_tenant : ℕ → Service → Option Tenant
get_tenant tenant_id s = lookup tenant_id s.tenants

unfoldable pub get_tenant_by_slug : String → Service → Option Tenant
get_tenant_by_slug slug s = elim (lookup slug s.slug_index) [
  | none ↦ none
  | some tenant_id ↦ lookup tenant_id s.tenants
]

-- A keyword argument of `update_tenant`; `other` is one that no field has,
-- or a field that is left out.
pub data Update : Type 0 where
  set_id : ℕ → Update
  set_name set_slug set_billing_email : String → Update
  set_plan : TenantPlan → Update
  set_status : TenantStatus → Update
  set_billing_cycle : BillingCycle → Update
  set_limits : Dict String ℤ → Update
  set_custom_domain : Option String → Update
  other : Update

abbrev pub set_field : Update → Tenant → Tenant
set_field (set_id x) t = record t { id = x }
set_field (set_name x) t = record t { name = x }
set_field (set_slug x) t = record t { slug = x }
set_field (set_billing_email x) t = record t { billing_email = x }
set_field (set_plan x) t = record t { plan = x }
set_field (set_status x) t = record t { status = x }
set_field (set_billing_cycle x) t = record t { billing_cycle = x }
set_field (set_limits x) t = record t { limits = x }
set_field (set_custom_domain x) t = record t { custom_domain = x }
set_field other t = t

abbrev pub set_fields : List Update → Tenant → Tenant
set_fields [] t = t
set_fields (u ∷ us) t = set_fields us (set_field u t)

-- What the four operations on a tenant have in common: a missing one gives None.
unfoldable pub change : (Tenant → Tenant) → ℕ → Service → Service × Option Tenant
change f tenant_id s = elim (lookup tenant_id s.tenants) [
  | none ↦ (s, none)
  | some t ↦ (record s { tenants = insert tenant_id (f t) s.tenants }, some (f t))
]

unfoldable pub update_tenant : ℕ → List Update → ℕ → Service → Service × Option Tenant
update_tenant now updates = change (λ t. record (set_fields updates t) { updated_at = now })

abbrev pub upgraded : ℕ → TenantPlan → Option BillingCycle → Tenant → Tenant
upgraded now new_plan billing_cycle t = record t {
  plan = new_plan;
  billing_cycle = or_else billing_cycle t.billing_cycle;
  status = active;
  subscription_ends_at = some (now + days (elim billing_cycle [ some yearly ↦ 365 | _ ↦ 30 ]));
  updated_at = now;
}

unfoldable pub upgrade_plan :
    ℕ → TenantPlan → Option BillingCycle → ℕ → Service → Service × Option Tenant
upgrade_plan now new_plan billing_cycle = change (upgraded now new_plan billing_cycle)

unfoldable pub suspend_tenant : ℕ → ℕ → Service → Service × Option Tenant
suspend_tenant now = change (λ t. record t { status = suspended; updated_at = now })

unfoldable pub reactivate_tenant : ℕ → ℕ → Service → Service × Option Tenant
reactivate_tenant now = change (λ t. record t { status = active; updated_at = now })
