-- ===== src/Rates/Tests.antt =====
-- A fiduciary of no tier at the endpoint that is limited least by default.
use consentchain.Prelude.{◌≡◌, refl, [], ◌∷◌, arith, lookup, insert, string_eq, list_eq}
use consentchain.Rates.{Store, get_limit_for_endpoint, get_tier, set_tier}
use consentchain.Rates.Windows.{answers, first_of, limit_of, window_allows_limit}

abbrev empty_store : Store
empty_store = record { tier_of = []; counters = [] }

default_limit : get_limit_for_endpoint (get_tier "f1" empty_store) "consent_create" ≡ (50, "minute")
unfolding get_limit_for_endpoint get_tier lookup
default_limit = refl

basic_limit :
    get_limit_for_endpoint (get_tier "f1" (set_tier "f1" "basic" empty_store)) "consent_verify"
    ≡ (500, "minute")
unfolding get_limit_for_endpoint get_tier set_tier lookup insert
basic_limit = refl

window_allows_limit_example :
    answers "f1" "consent_create" (0 ∷ 10 ∷ 59 ∷ []) empty_store
    ≡ first_of (limit_of "f1" "consent_create" empty_store) 0 (0 ∷ 10 ∷ 59 ∷ [])
unfolding lookup get_limit_for_endpoint get_tier
window_allows_limit_example =
    window_allows_limit 0 (10 ∷ 59 ∷ []) "f1" "consent_create" empty_store refl
      (omega arith, (omega arith, tt))
