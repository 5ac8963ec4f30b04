-- ===== src/Tenant/Metering.antt =====
-- Usage is summed by resource and month, and a quota that is checked before each use holds.
use Prim.Native.String.{String}
use consentchain.Prelude.{
  ℕ, ◌+◌, ◌≤◌, ◌≡◌, ◌≢◌, ◌∙◌, ap, refl, pos, Bool, false, ◌&&◌, Option, none, some, List, [], ◌∷◌,
  ◌++◌, arith, ltb, if◌then◌else◌, Bool-cases, inl, inr, lookup, lookup-insert, lookup-insert_self,
  ◌==◌, ==_iff, ==-self, string_eq, nat_eq, Dict, or_else,
}
use consentchain.Tenant.{Tenant, UsageRecord, Service, get_limit}
use consentchain.Tenant.Usage.{
  record_usage, counts, add_usage, summarise, get_usage, get_monthly_usage, quota_map, check_quota,
  is_allowed,
}

-- The quantities of a resource in the records that a test selects.
abbrev pub sum_where : (UsageRecord → Bool) → String → List UsageRecord → ℕ
sum_where p ty [] = 0
sum_where p ty (r ∷ rs) =
    (if p r && (r.resource_type == ty) then r.quantity else 0) + sum_where p ty rs

sum_where-append :
    (p : UsageRecord → Bool) (ty : String) (xs ys : List UsageRecord)
    → sum_where p ty (xs ++ ys) ≡ sum_where p ty xs + sum_where p ty ys
sum_where-append p ty [] ys = omega arith
sum_where-append p ty (x ∷ xs) ys = omega (arith, sum_where-append p ty xs ys)

lookup-add_usage :
    (ty : String) (r : UsageRecord) (d : Dict String ℕ)
    → or_else (lookup ty (add_usage r d)) 0
      ≡ (if r.resource_type == ty then r.quantity else 0) + or_else (lookup ty d) 0
lookup-add_usage ty r d =
    let old = or_else (lookup r.resource_type d) 0 in
    let after = lookup-insert ty r.resource_type (old + r.quantity) d in
    elim (Bool-cases (r.resource_type == ty)) [
      | inl e ↦
          let same = ap (λ k. or_else (lookup k d) 0) ((==_iff r.resource_type ty).0 e) in
          rw (after, e) (omega (arith, same))
      | inr e ↦ rw (after, e) (omega arith)
    ]

lookup-summarise :
    (p : UsageRecord → Bool) (ty : String) (rs : List UsageRecord) (d : Dict String ℕ)
    → or_else (lookup ty (summarise p rs d)) 0 ≡ sum_where p ty rs + or_else (lookup ty d) 0
unfolding summarise
lookup-summarise p ty [] d = omega arith
lookup-summarise p ty (r ∷ rs) d = elim (Bool-cases (p r)) [
  | inl e ↦ rw e (omega (arith, lookup-summarise p ty rs (add_usage r d), lookup-add_usage ty r d))
  | inr e ↦ rw e (omega (arith, lookup-summarise p ty rs d))
]

-- The summary has for each resource the sum of the quantities of the records that pass the filters,
-- and nothing (a sum of zero) for the others.
get_usage_sums :
    (tenant_id : ℕ) (kind : Option String) (start_date end_date : Option ℕ) (ty : String)
    (s : Service)
    → or_else (lookup ty (get_usage tenant_id kind start_date end_date s)) 0
      ≡ sum_where (counts kind start_date end_date) ty (or_else (lookup tenant_id s.usage) [])
unfolding get_usage lookup
get_usage_sums id kind a b ty s =
    omega (arith, lookup-summarise (counts kind a b) ty (or_else (lookup id s.usage) []) [])

-- What `check_quota` compares.
abbrev pub current_usage : ℕ → ℕ → String → Service → ℕ
current_usage start id ty s = or_else (lookup ty (get_monthly_usage start id s)) 0

one_record :
    (start now id q : ℕ) (ty : String)
    → start ≤ now
    → sum_where
        (counts none (some start) none)
        ty
        (record { tenant_id = id; resource_type = ty; quantity = q; timestamp = now } ∷ [])
      ≡ q
one_record start now id q ty in_month = ground (arith, ==-self ty)

-- A unit that is recorded in the month counts once for its tenant and resource; it does not count for
-- another tenant.
pub record_usage_counts :
    (start now id other q : ℕ) (ty : String) (s : Service)
    → start ≤ now
    → let s' = (record_usage now id ty q s).0 in
      (current_usage start id ty s' ≡ current_usage start id ty s + q)
      × (id ≢ other → current_usage start other ty s' ≡ current_usage start other ty s)
unfolding record_usage
record_usage_counts start now id o q ty s in_month =
    let p = counts none (some start) none in
    let r : UsageRecord = record {
      tenant_id = id;
      resource_type = ty;
      quantity = q;
      timestamp = now;
    } in
    let old = or_else (lookup id s.usage) [] in
    let s' = (record_usage now id ty q s).0 in
    let list : or_else (lookup id s'.usage) [] ≡ old ++ (r ∷ []) =
      rw (lookup-insert_self id (old ++ (r ∷ [])) s.usage) refl in
    (
      omega (
        arith,
        get_usage_sums id none (some start) none ty s',
        get_usage_sums id none (some start) none ty s,
        ap (sum_where p ty) list,
        sum_where-append p ty old (r ∷ []),
        one_record start now id q ty in_month,
      ),
      λ ne.
          let differ : (id == o) ≡ false = ground arith in
          let same : or_else (lookup o s'.usage) [] ≡ or_else (lookup o s.usage) [] =
            rw (lookup-insert o id (old ++ (r ∷ [])) s.usage, differ) refl in
          omega (
            arith,
            get_usage_sums o none (some start) none ty s',
            get_usage_sums o none (some start) none ty s,
            ap (sum_where p ty) same,
          ),
    )

-- A client that records one unit of a resource only when the quota check allows it.
abbrev pub metered : ℕ → ℕ → String → ℕ → Service → Service
metered start id ty now s =
    if is_allowed (check_quota start id ty s) then (record_usage now id ty 1 s).0 else s

check_quota-allowed :
    (start id n : ℕ) (ty key : String) (t : Tenant) (s : Service)
    → lookup id s.tenants ≡ some t
    → lookup ty quota_map ≡ some key
    → get_limit t key ≡ pos n
    → is_allowed (check_quota start id ty s) ≡ ltb (current_usage start id ty s) n
unfolding check_quota
check_quota-allowed start id n ty key t s known mapped limit =
    rw (check_quota, known, mapped, limit) refl

metered_step :
    (start now id n : ℕ) (ty key : String) (t : Tenant) (s : Service)
    → start ≤ now
    → lookup id s.tenants ≡ some t
    → lookup ty quota_map ≡ some key
    → get_limit t key ≡ pos n
    → current_usage start id ty s ≤ n
    → (current_usage start id ty (metered start id ty now s) ≤ n)
      × ((metered start id ty now s).tenants ≡ s.tenants)
unfolding record_usage
metered_step start now id n ty key t s in_month known mapped limit below_n =
    let allowed = check_quota-allowed start id n ty key t s known mapped limit in
    let counted = record_usage_counts start now id id 1 ty s in_month in
    elim (Bool-cases (is_allowed (check_quota start id ty s))) [
      | inl e ↦ rw e (ground (arith, allowed, e, counted.0), refl)
      | inr e ↦ rw e (below_n, refl)
    ]

abbrev pub metered_run : ℕ → ℕ → String → List ℕ → Service → Service
metered_run start id ty [] s = s
metered_run start id ty (now ∷ times) s = metered_run start id ty times (metered start id ty now s)

abbrev pub AllFrom : ℕ → List ℕ → Type 0
AllFrom start [] = Unit {0}
AllFrom start (now ∷ times) = start ≤ now × AllFrom start times

-- When each use of a resource that has a quota is recorded only after the quota check allows it,
-- then however many uses are tried in the month, the usage of a tenant with a finite limit, once
-- within that limit, stays within it.
pub usage_within_limit :
    (start id n : ℕ) (ty key : String) (times : List ℕ) (t : Tenant) (s : Service)
    → AllFrom start times
    → lookup id s.tenants ≡ some t
    → lookup ty quota_map ≡ some key
    → get_limit t key ≡ pos n
    → current_usage start id ty s ≤ n
    → current_usage start id ty (metered_run start id ty times s) ≤ n
usage_within_limit start id n ty key [] t s from known mapped limit fits = fits
usage_within_limit start id n ty key (now ∷ times) t s from known mapped limit fits =
    let step = metered_step start now id n ty key t s from.0 known mapped limit fits in
    usage_within_limit start id n ty key times t (metered start id ty now s) from.1
      (ap (λ d. lookup id d) step.1 ∙ known) mapped limit step.0
