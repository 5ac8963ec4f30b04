-- ===== src/Tenant/Renaming.antt =====
-- What an update of a slug does to the index of TenantService, api/tenant/__init__.py.
use Prim.Native.String.{String}
use consentchain.Prelude.{
  ℕ, ◌≡◌, ◌≢◌, refl, ℤ, none, some, List, [], ◌∷◌, arith, lookup, lookup-insert, lookup-insert_self,
  insert, ==_iff, string_eq, nat_eq, ok, Dict,
}
use consentchain.Tenant.{
  Tenant, TenantPlan, BillingCycle, Service, new_tenant, Update, set_slug, set_fields,
  create_tenant, get_tenant, get_tenant_by_slug, change, update_tenant,
}

update_tenant-found :
    (now id : ℕ) (us : List Update) (t : Tenant) (s : Service)
    → lookup id s.tenants ≡ some t
    → (update_tenant now us id s).0
      ≡ record s { tenants = insert id (record (set_fields us t) { updated_at = now }) s.tenants }
unfolding update_tenant change
update_tenant-found now id us t s known = ground arith

-- An update of a slug leaves the index as it was: the tenant is still found by the slug that it no
-- longer has, its new slug counts as free, and a second tenant is created with it.
renamed_slug_reused :
    (id id' now : ℕ) (slug name email : String) (plan : TenantPlan) (cycle : BillingCycle)
    (limits : Dict String ℤ) (t : Tenant) (s : Service)
    → lookup id s.tenants ≡ some t
    → lookup t.slug s.slug_index ≡ some id
    → lookup slug s.slug_index ≡ none
    → id ≢ id'
    → let s' = (update_tenant now (set_slug slug ∷ []) id s).0 in
      (get_tenant_by_slug slug s' ≡ none)
      × (get_tenant_by_slug t.slug s' ≡ some (record t { slug = slug; updated_at = now }))
      × ((made : Service × Tenant) × (create_tenant id' now name slug plan email cycle limits s'
            ≡ ok made)
          × (made.1.slug ≡ slug)
          × (get_tenant id made.0 ≡ some (record t { slug = slug; updated_at = now }))
          × (get_tenant id' made.0 ≡ some made.1))
unfolding get_tenant_by_slug create_tenant get_tenant
renamed_slug_reused id id' now slug name email plan cycle limits t s known indexed free' ne =
    let renamed : Tenant = record t { slug = slug; updated_at = now } in
    let second = new_tenant id' now name slug plan email cycle limits in
    let tenants = insert id renamed s.tenants in
    rw (update_tenant-found now id (set_slug slug ∷ []) t s known) (
      ground (arith, free'),
      ground (arith, indexed, lookup-insert_self id renamed s.tenants),
      (
        (
          record {
            tenants = insert id' second tenants;
            slug_index = insert slug id' s.slug_index;
            usage = insert id' [] s.usage;
          },
          second,
        ),
        ground (arith, free'),
        refl,
        ground (
          arith,
          lookup-insert id id' second tenants,
          lookup-insert_self id renamed s.tenants,
          ==_iff id' id,
        ),
        lookup-insert_self id' second tenants,
      ),
    )
