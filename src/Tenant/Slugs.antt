-- ===== src/Tenant/Slugs.antt =====
-- Slugs: the index and the tenants of TenantService, api/tenant/__init__.py, while no update touches
-- a slug.
use Prim.Native.String.{String}
use consentchain.Prelude.{
  ℕ, ◌≡◌, ◌∙◌, sym, ap, refl, ℤ, Option, none, some, List, [], arith, lookup, lookup-insert,
  lookup-insert_self, insert, Option-cases, ◌==◌, ==_iff, string_eq, nat_eq, Bool-cases, inl, inr,
  ok, Dict,
}
use consentchain.Tenant.{
  Tenant, TenantPlan, BillingCycle, Service, UsageRecord, new_tenant, Update, set_fields,
  new_service, create_tenant, get_tenant_by_slug, change, update_tenant, upgrade_plan,
  suspend_tenant, reactivate_tenant,
}
use consentchain.Tenant.Usage.{record_usage}

-- The index leads from each slug to the tenant that has it, and back.
pub record IsIndexed (s : Service) : Type 0 where
  pub to_tenant :
      (slug : String) (id : ℕ)
      → lookup slug s.slug_index ≡ some id
      → (t : Tenant) × (lookup id s.tenants ≡ some t) × (t.slug ≡ slug)
  pub from_tenant :
      (id : ℕ) (t : Tenant) → lookup id s.tenants ≡ some t → lookup t.slug s.slug_index ≡ some id

abbrev pub KeepsSlug : List Update → Type 0
KeepsSlug us = (t : Tenant) → (set_fields us t).slug ≡ t.slug

pub data Step : Service → Service → Type 0 where
  creates :
      (id now : ℕ) (name slug email : String) (plan : TenantPlan) (cycle : BillingCycle)
      (limits : Dict String ℤ) (s : Service) {s' : Service} {t : Tenant}
      → lookup id s.tenants ≡ none
      → create_tenant id now name slug plan email cycle limits s ≡ ok (s', t)
      → Step s s'
  updates :
      (now id : ℕ) (us : List Update) (s : Service)
      → KeepsSlug us
      → Step s (update_tenant now us id s).0
  upgrades :
      (now id : ℕ) (plan : TenantPlan) (cycle : Option BillingCycle) (s : Service)
      → Step s (upgrade_plan now plan cycle id s).0
  suspends : (now id : ℕ) (s : Service) → Step s (suspend_tenant now id s).0
  reactivates : (now id : ℕ) (s : Service) → Step s (reactivate_tenant now id s).0
  records : (now id q : ℕ) (ty : String) (s : Service) → Step s (record_usage now id ty q s).0

pub data Reach : Service → Type 0 where
  fresh : Reach new_service
  next : {s s' : Service} → Reach s → Step s s' → Reach s'

put-IsIndexed :
    (id : ℕ) (t u : Tenant) (s : Service)
    → lookup id s.tenants ≡ some t
    → u.slug ≡ t.slug
    → IsIndexed s
    → IsIndexed (record s { tenants = insert id u s.tenants })
put-IsIndexed id t u s known keeps v = record {
  to_tenant = λ slug j h.
      let (w, there, named) = v.to_tenant slug j h in
      let after = lookup-insert j id u s.tenants in
      elim (Bool-cases (id == j)) [
        | inl e ↦ (u, rw (after, e) refl, ground (arith, ==_iff id j))
        | inr e ↦ (w, rw (after, e) there, named)
      ];
  from_tenant = λ j w h.
      let after = lookup-insert j id u s.tenants in
      elim (Bool-cases (id == j)) [
        | inl e ↦
            let same : w ≡ u = ground arith in
            let here : id ≡ j = (==_iff id j).0 e in
            ap (λ x. lookup x.slug s.slug_index) same
            ∙ ap (λ x. lookup x s.slug_index) keeps
            ∙ v.from_tenant id t known
            ∙ ap some here
        | inr e ↦ v.from_tenant j w (ground (arith, after))
      ];
}

change-IsIndexed :
    (f : Tenant → Tenant) (id : ℕ) (s : Service)
    → ((t : Tenant) → (f t).slug ≡ t.slug)
    → IsIndexed s
    → IsIndexed (change f id s).0
unfolding change
change-IsIndexed f id s keeps v = elim (Option-cases (lookup id s.tenants)) [
  | inl e ↦ rw (change, e) v
  | inr (t, e) ↦ rw (change, e) (put-IsIndexed id t (f t) s e (keeps t) v)
]

new-IsIndexed :
    (id : ℕ) (u : Tenant) (us : Dict ℕ (List UsageRecord)) (s : Service)
    → lookup id s.tenants ≡ none
    → lookup u.slug s.slug_index ≡ none
    → IsIndexed s
    → IsIndexed (record {
      tenants = insert id u s.tenants;
      slug_index = insert u.slug id s.slug_index;
      usage = us;
    })
new-IsIndexed id u us s absent unused v = record {
  to_tenant = λ slug j h. elim (Bool-cases (u.slug == slug)) [
    | inl e ↦
        let here : id ≡ j = ground (arith, lookup-insert slug u.slug id s.slug_index) in
        (
          u,
          ap (λ k. lookup k (insert id u s.tenants)) (sym here) ∙ lookup-insert_self id u s.tenants,
          (==_iff u.slug slug).0 e,
        )
    | inr e ↦
        let (w, there, named) =
          v.to_tenant slug j (ground (arith, lookup-insert slug u.slug id s.slug_index)) in
        (w, ground (arith, lookup-insert j id u s.tenants, ==_iff id j), named)
  ];
  from_tenant = λ j w h. elim (Bool-cases (id == j)) [
    | inl e ↦
        let same : w ≡ u = ground (arith, lookup-insert j id u s.tenants) in
        ap (λ x. lookup x.slug (insert u.slug id s.slug_index)) same
        ∙ lookup-insert_self u.slug id s.slug_index
        ∙ ap some ((==_iff id j).0 e)
    | inr e ↦
        let before = v.from_tenant j w (ground (arith, lookup-insert j id u s.tenants)) in
        ground (arith, before, lookup-insert w.slug u.slug id s.slug_index, ==_iff u.slug w.slug)
  ];
}

create-IsIndexed :
    (id now : ℕ) (name slug email : String) (plan : TenantPlan) (cycle : BillingCycle)
    (limits : Dict String ℤ) (s s' : Service) (t : Tenant)
    → lookup id s.tenants ≡ none
    → create_tenant id now name slug plan email cycle limits s ≡ ok (s', t)
    → IsIndexed s
    → IsIndexed s'
unfolding create_tenant
create-IsIndexed id now name slug email plan cycle limits s s' t absent h v =
    elim (Option-cases (lookup slug s.slug_index)) [
      | inr (j, e) ↦ absurd (ground arith)
      | inl e ↦
          let u = new_tenant id now name slug plan email cycle limits in
          let same : s' ≡ record {
            tenants = insert id u s.tenants;
            slug_index = insert slug id s.slug_index;
            usage = insert id [] s.usage;
          } =
            ground arith in
          rw same (new-IsIndexed id u (insert id [] s.usage) s absent e v)
    ]

Step-IsIndexed : {s s' : Service} → Step s s' → IsIndexed s → IsIndexed s'
unfolding update_tenant upgrade_plan suspend_tenant reactivate_tenant record_usage
Step-IsIndexed (creates id now n sl em p c l s {s' = s'} {t = t} a h) v =
    create-IsIndexed id now n sl em p c l s s' t a h v
Step-IsIndexed (updates now id us s keeps) v = change-IsIndexed _ id s keeps v
Step-IsIndexed (upgrades now id p c s) v = change-IsIndexed _ id s (λ t. refl) v
Step-IsIndexed (suspends now id s) v = change-IsIndexed _ id s (λ t. refl) v
Step-IsIndexed (reactivates now id s) v = change-IsIndexed _ id s (λ t. refl) v
Step-IsIndexed (records now id q ty s) v = record {
  to_tenant = v.to_tenant;
  from_tenant = v.from_tenant;
}

new_service-IsIndexed : IsIndexed new_service
unfolding lookup
new_service-IsIndexed = record {
  to_tenant = λ slug id h. absurd (ground arith);
  from_tenant = λ id t h. absurd (ground arith);
}

Reach-IsIndexed : {s : Service} → Reach s → IsIndexed s
Reach-IsIndexed fresh = new_service-IsIndexed
Reach-IsIndexed (next r st) = Step-IsIndexed st (Reach-IsIndexed r)

-- Whatever operations have run, with fresh identifiers and no update that changes a slug: a tenant is
-- found by its slug, and two tenants with the same slug are the same one.
pub slug_finds_tenant :
    (id other : ℕ) (t u : Tenant) {s : Service}
    → Reach s
    → lookup id s.tenants ≡ some t
    → lookup other s.tenants ≡ some u
    → t.slug ≡ u.slug
    → (get_tenant_by_slug t.slug s ≡ some t) × (id ≡ other)
unfolding get_tenant_by_slug
slug_finds_tenant id o t u {s = s} r known known' same =
    let v = Reach-IsIndexed r in
    let here = v.from_tenant id t known in
    let there = v.from_tenant o u known' in
    (
      rw (get_tenant_by_slug, here) known,
      ground (arith, here, there, ap (λ x. lookup x s.slug_index) same),
    )
