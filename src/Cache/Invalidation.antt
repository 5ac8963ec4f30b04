-- ===== src/Cache/Invalidation.antt =====
-- What an invalidation removes, and what it leaves.
use consentchain.Prelude.{
  ℕ, ◌≡◌, ◌∙◌, refl, ap, true, false, not, Bool, ◌||◌, Option, none, List, [], ◌∷◌, arith, eqb,
  eqb_iff, if◌then◌else◌, keep, Dict, lookup, ◌==◌, ==_iff, list_eq, nat_eq, Bool-cases, inl, inr,
}
use consentchain.Cache.Keys
use consentchain.Cache.Keys.{Text, codes}
use consentchain.Cache.{
  Cache, Pattern, matches, below_key, delete_pattern, delete_patterns, consent_patterns,
  principal_patterns, invalidate_consent, invalidate_principal,
}

-- The signs with a meaning in a pattern.
abbrev is_glob : ℕ → Bool
is_glob c = eqb c b'*' || eqb c b'?' || eqb c b'['

abbrev pub IsPlain : Text → Type 0
IsPlain [] = Unit {0}
IsPlain (c ∷ cs) = (is_glob c ≡ false) × IsPlain cs

below_key_self : (key : Text) → IsPlain key → matches (below_key key) key ≡ true
unfolding matches
below_key_self [] plain = refl
below_key_self (x ∷ key) plain =
    let here = plain.0 in ground (arith, here, below_key_self key plain.1, eqb_iff x x)

below_consent :
    (id : Text) → IsPlain id → matches (below_key (Keys.consent id)) (Keys.consent id) ≡ true
unfolding matches
below_consent id plain = below_key_self id plain

below_verification :
    (id : Text)
    → IsPlain id
    → matches (below_key (Keys.consent_verification id)) (Keys.consent_verification id) ≡ true
unfolding matches
below_verification id plain = below_key_self id plain

-- One of the patterns matches.
unfoldable is_covered : List Pattern → Text → Bool
is_covered [] key = false
is_covered (p ∷ ps) key = matches p key || is_covered ps key

covered_here :
    (p : Pattern) (ps : List Pattern) (key : Text)
    → matches p key ≡ true
    → is_covered (p ∷ ps) key ≡ true
unfolding is_covered
covered_here p ps key h = rw h refl

covered_later :
    (p : Pattern) (ps : List Pattern) (key : Text)
    → is_covered ps key ≡ true
    → is_covered (p ∷ ps) key ≡ true
unfolding is_covered
covered_later p ps key h = ground (arith, h)

page_uncovered :
    (d : ℕ) (ds id page limit : Text) (status : Option Text)
    → IsPlain (d ∷ ds)
    → eqb d b'p' ≡ false
    → is_covered (consent_patterns (d ∷ ds)) (Keys.principal_consents id page limit status) ≡ false
unfolding is_covered matches
page_uncovered d ds id page limit status plain first =
    let here = plain.0 in ground (arith, here, first)

page_not_below :
    (id page limit : Text) (status : Option Text)
    → is_covered (principal_patterns id) (Keys.principal_consents id page limit status) ≡ false
unfolding is_covered matches
page_not_below id page limit status = refl

module _ {ℓ} {V : Type ℓ} where
  lookup-keep :
      (q : Text → Bool) (key : Text) (d : Dict Text (V × ℕ))
      → lookup key (keep (λ entry. not (q entry.0)) d) ≡ (if q key then none else lookup key d)
  unfolding lookup
  lookup-keep q key [] = ground arith
  lookup-keep q key ((k, v) ∷ d) = elim (Bool-cases (k == key)) [
    | inl e ↦ let as_key = ap q ((==_iff k key).0 e) in ground (arith, lookup-keep q key d, as_key)
    | inr e ↦ ground (arith, lookup-keep q key d)
  ]

  delete_patterns-lookup :
      (ps : List Pattern) (key : Text) (c : Cache V)
      → lookup key (delete_patterns ps c).local_cache
        ≡ (if is_covered ps key then none else lookup key c.local_cache)
  unfolding delete_patterns is_covered delete_pattern
  delete_patterns-lookup [] key c = refl
  delete_patterns-lookup (p ∷ ps) key c =
      delete_patterns-lookup ps key (delete_pattern p c).0
      ∙ ground (arith, lookup-keep (matches p) key c.local_cache)

  covered-lookup :
      (ps : List Pattern) (key : Text) (c : Cache V)
      → is_covered ps key ≡ true
      → lookup key (delete_patterns ps c).local_cache ≡ none
  covered-lookup ps key c h = delete_patterns-lookup ps key c ∙ rw h refl

  uncovered-lookup :
      (ps : List Pattern) (key : Text) (c : Cache V)
      → is_covered ps key ≡ false
      → lookup key (delete_patterns ps c).local_cache ≡ lookup key c.local_cache
  uncovered-lookup ps key c h = delete_patterns-lookup ps key c ∙ rw h refl

  -- Where identifiers have no star, question mark or bracket: to invalidate a consent removes what is
  -- cached of it and of its verification, but no page of the consents of any principal, if the first
  -- sign of its identifier is not a p; and to invalidate a principal leaves the principal's own pages
  -- as well.
  pub pages_stay :
      (d : ℕ) (ds id page limit : Text) (status : Option Text) (c : Cache V)
      → IsPlain (d ∷ ds)
      → IsPlain id
      → eqb d b'p' ≡ false
      → let consent = d ∷ ds in
        let after = invalidate_consent consent c in
        let pages = Keys.principal_consents id page limit status in
        (lookup (Keys.consent consent) after.local_cache ≡ none)
        × (lookup (Keys.consent_verification consent) after.local_cache ≡ none)
        × (lookup pages after.local_cache ≡ lookup pages c.local_cache)
        × (lookup pages (invalidate_principal id c).local_cache ≡ lookup pages c.local_cache)
  unfolding invalidate_consent invalidate_principal
  pages_stay d ds id page limit status c plain plain_id first = (
    covered-lookup _ (Keys.consent (d ∷ ds)) c
        (covered_here _ _ (Keys.consent (d ∷ ds)) (below_consent (d ∷ ds) plain)),
    covered-lookup _ (Keys.consent_verification (d ∷ ds)) c (
        covered_later _ _ (Keys.consent_verification (d ∷ ds)) (
          covered_here _ _ (Keys.consent_verification (d ∷ ds))
            (below_verification (d ∷ ds) plain))),
    uncovered-lookup _ (Keys.principal_consents id page limit status) c
        (page_uncovered d ds id page limit status plain first),
    uncovered-lookup _ (Keys.principal_consents id page limit status) c
        (page_not_below id page limit status),
  )
