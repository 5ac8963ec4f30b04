-- ===== src/Tenant/Features.antt =====
-- What a plan gives a tenant.
use Prim.Native.String.{String}
use consentchain.Prelude.{
  ℕ, ◌+◌, ◌≤◌, ◌≡◌, refl, true, ◌||◌, Option, none, some, arith, lookup, lookup-insert_self, nat_eq,
  string_eq, ℤ, is_in,
}
use consentchain.Tenant.{
  upgraded, get_limit, Tenant, TenantPlan, free, starter, professional, enterprise, custom, active,
  yearly, BillingCycle, Service, has_feature, plan_features, days, change, get_tenant, upgrade_plan,
}

abbrev pub rank : TenantPlan → ℕ
rank free = 0
rank starter = 1
rank professional = 2
rank enterprise = 3
rank custom = 4

features_grow :
    (p p' : TenantPlan) (f : String)
    → rank p ≤ rank p'
    → (is_in "*" (plan_features p) || is_in f (plan_features p)) ≡ true
    → (is_in "*" (plan_features p') || is_in f (plan_features p')) ≡ true
unfolding is_in plan_features
features_grow free p' f le has = ground arith
features_grow starter p' f le has = ground arith
features_grow professional p' f le has = ground arith
features_grow enterprise p' f le has = ground arith
features_grow custom p' f le has = ground arith

-- An upgrade of a tenant to a plan that does not rank lower makes it active and takes no feature
-- away; a custom limit stays in force.
upgrade_keeps_features :
    (id now : ℕ) (p : TenantPlan) (cycle : Option BillingCycle) (f limit_name : String) (l : ℤ)
    (t : Tenant) (s : Service)
    → lookup id s.tenants ≡ some t
    → rank t.plan ≤ rank p
    → has_feature t f ≡ true
    → lookup limit_name t.limits ≡ some l
    → let s' = (upgrade_plan now p cycle id s).0 in
      (t' : Tenant) × (get_tenant id s' ≡ some t')
      × (t'.status ≡ active)
      × (has_feature t' f ≡ true)
      × (get_limit t' limit_name ≡ l)
unfolding upgrade_plan change get_tenant has_feature get_limit
upgrade_keeps_features id now p c f ln l t s known up has set =
    let t' = upgraded now p c t in
    (
      t',
      ground (arith, lookup-insert_self id t' s.tenants),
      refl,
      features_grow t.plan p f up has,
      ground arith,
    )

-- An upgrade that names no billing cycle leaves a yearly tenant on the yearly cycle, with a
-- subscription of 30 days.
yearly_upgrade_is_short :
    (id now : ℕ) (p : TenantPlan) (t : Tenant) (s : Service)
    → lookup id s.tenants ≡ some t
    → t.billing_cycle ≡ yearly
    → let s' = (upgrade_plan now p none id s).0 in
      (t' : Tenant) × (get_tenant id s' ≡ some t')
      × (t'.billing_cycle ≡ yearly)
      × (t'.subscription_ends_at ≡ some (now + days 30))
unfolding upgrade_plan change get_tenant
yearly_upgrade_is_short id now p t s known cycle =
    let t' = upgraded now p none t in
    (t', ground (arith, lookup-insert_self id t' s.tenants), cycle, refl)
