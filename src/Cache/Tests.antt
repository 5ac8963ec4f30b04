-- ===== src/Cache/Tests.antt =====
-- A consent and a page of consents in the cache.
use consentchain.Prelude.{
  ℕ, ◌+◌, ◌*◌, ◌≡◌, refl, true, none, some, List, [], ◌∷◌, ltb, if◌then◌else◌, lookup, insert,
  list_eq, list_beq, nat_eq,
}
use consentchain.Cache.Keys
use consentchain.Cache.Keys.{Text, codes}
use consentchain.Cache.{
  Cache, second, empty_cache, get, set, cached, invalidate_consent, invalidate_principal,
  delete_patterns, delete_pattern, matches,
}
use consentchain.Cache.Expiry.{Call, reads, drops, run, IsApart, set_until_expiry}
use consentchain.Cache.Invalidation.{pages_stay}

abbrev key : Text
key = Keys.consent (codes "a1")

abbrev page : Text
page = Keys.principal_consents (codes "7f") (codes "1") (codes "20") none

abbrev calls : List (Call ℕ)
calls = reads 5 page ∷ drops page ∷ []

abbrev start : Cache ℕ
start = empty_cache

calls-IsApart : IsApart key calls
unfolding list_beq
calls-IsApart = (refl, (refl, tt))

abbrev after : Cache ℕ
after = run calls (set 10 key 42 300 start)

set_until_expiry_example :
    ((get 300000009 key after).1 ≡ (if ltb 300000009 (10 + 300 * second) then some 42 else none))
    × (ltb 300000009 (10 + 300 * second) ≡ true
        → (cached 300000009 300000020 key 300 (some 43) after).1 ≡ some 42)
set_until_expiry_example =
    set_until_expiry 10 300 300000009 300000020 key 42 (some 43) calls start calls-IsApart

abbrev paged : Cache ℕ
paged = set 0 page 7 300 (set 0 key 42 300 start)

-- The page is still answered when the consent has been invalidated.
page_answered : (get 1 page (invalidate_consent (codes "a1") paged)).1 ≡ some 7
unfolding get set lookup list_beq invalidate_consent delete_patterns matches delete_pattern insert
page_answered = refl

pages_stay_example :
    (lookup key (invalidate_consent (codes "a1") paged).local_cache ≡ none)
    × (lookup
          (Keys.consent_verification (codes "a1"))
          (invalidate_consent (codes "a1") paged).local_cache
        ≡ none)
    × (lookup page (invalidate_consent (codes "a1") paged).local_cache
        ≡ lookup page paged.local_cache)
    × (lookup page (invalidate_principal (codes "7f") paged).local_cache
        ≡ lookup page paged.local_cache)
pages_stay_example =
    pages_stay b'a' (codes "1") (codes "7f") (codes "1") (codes "20") none paged (refl, (refl, tt))
      (refl, (refl, tt)) refl
