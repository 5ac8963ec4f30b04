-- ===== src/Tenant/Tests.antt =====
-- The tenant service at concrete tenants.
use Prim.Native.String.{String}
use consentchain.Prelude.{
  ℕ, ◌≤◌, ◌≡◌, refl, pos, some, [], ◌∷◌, arith, lookup, insert, string_eq, nat_eq,
}
use consentchain.Tenant.{
  Tenant, free, active, yearly, monthly, Service, UsageRecord, new_service, new_tenant,
  create_tenant, get_tenant_by_slug, get_limit,
}
use consentchain.Tenant.Usage.{get_usage, summarise}
use consentchain.Tenant.Slugs.{Reach, fresh, next, creates, slug_finds_tenant}
use consentchain.Tenant.Metering.{current_usage, metered_run, usage_within_limit}

abbrev acme : Tenant
acme =
    record (new_tenant 1 0 "Acme" "acme" free "a@acme.example" yearly
      (("max_webhooks", pos 2) ∷ [])) { status = active }

abbrev use_of : String → ℕ → ℕ → UsageRecord
use_of ty q at = record { tenant_id = 1; resource_type = ty; quantity = q; timestamp = at }

abbrev service : Service
service = record {
  tenants = (1, acme) ∷ [];
  slug_index = ("acme", 1) ∷ [];
  usage = (1, use_of "webhook" 1 5 ∷ use_of "consent" 3 12 ∷ use_of "webhook" 1 13 ∷ []) ∷ [];
}

abbrev one_id : ℕ
one_id = 1

usage_within_limit_example :
    current_usage 10 1 "webhook" (metered_run 10 1 "webhook" (14 ∷ 15 ∷ []) service) ≤ 2
unfolding lookup get_limit get_usage summarise insert
usage_within_limit_example =
    usage_within_limit 10 1 2 "webhook" "max_webhooks" (14 ∷ 15 ∷ []) acme service
      (omega arith, (omega arith, tt)) refl refl refl (omega arith)

abbrev one : Tenant
one = new_tenant 1 0 "Acme" "acme" free "" monthly []

abbrev with_one : Service
with_one = record { tenants = (1, one) ∷ []; slug_index = ("acme", 1) ∷ []; usage = (1, []) ∷ [] }

reached : Reach with_one
unfolding create_tenant lookup insert
reached = next fresh (creates 1 0 "Acme" "acme" "" free monthly [] new_service refl refl)

slug_finds_tenant_example : (get_tenant_by_slug "acme" with_one ≡ some one) × (one_id ≡ one_id)
unfolding lookup
slug_finds_tenant_example = slug_finds_tenant 1 1 one one reached refl refl refl
