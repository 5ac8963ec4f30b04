-- ===== src/Cache.antt =====
-- The cache of api/cache/__init__.py, `CacheService`, as it works without Redis: the dictionary of the
-- process. Texts are lists of character codes, times are microseconds; what is cached is of any type
-- without a None.
-- Numbers in keys are given as the texts that they are written with.
pub mod Keys
pub mod Expiry
pub mod Invalidation
mod Tests
use consentchain.Prelude.{
  ℕ, ◌+◌, ◌*◌, Bool, true, false, not, ◌&&◌, ◌||◌, Option, none, some, List, [], ◌∷◌, ◌++◌, map,
  eqb, ltb, if◌then◌else◌, length, keep, Dict, lookup, insert, erase, contains, ◌==◌, list_eq,
  nat_eq,
}
use consentchain.Cache.Keys
use consentchain.Cache.Keys.{Text, codes}

pub record CacheStats : Type 0 where
  pub hits : ℕ
  pub misses : ℕ
  pub sets : ℕ
  pub deletes : ℕ

-- A value, and when it expires.
pub record Cache {ℓ} (V : Type ℓ) : Type ℓ where
  pub local_cache : Dict Text (V × ℕ)
  pub stats : CacheStats

abbrev pub second : ℕ
second = 1000000

-- The patterns of `fnmatch`: signs that stand for themselves, question marks and stars. Sets in brackets
-- are left out: a text with a bracket is no pattern here.
pub data Token : Type 0 where
  sign : ℕ → Token
  any_sign star : Token

abbrev pub Pattern : Type 0
Pattern = List Token

abbrev pub token_of : ℕ → Token
token_of c = if eqb c b'*' then star else if eqb c b'?' then any_sign else sign c

abbrev pub literal : Text → Pattern
literal t = map token_of t

-- `fnmatch.fnmatch(key, pattern)`
unfoldable pub matches : Pattern → Text → Bool
matches [] [] = true
matches [] (x ∷ xs) = false
matches (sign c ∷ p) [] = false
matches (sign c ∷ p) (x ∷ xs) = eqb c x && matches p xs
matches (any_sign ∷ p) [] = false
matches (any_sign ∷ p) (x ∷ xs) = matches p xs
matches (star ∷ p) [] = matches p []
matches (star ∷ p) (x ∷ xs) = matches p (x ∷ xs) || matches (star ∷ p) xs

-- The identifier in it is not escaped.
abbrev pub below_key : Text → Pattern
below_key key = literal key ++ (star ∷ [])

abbrev pub page_pattern : Pattern
page_pattern =
    literal (codes "consentchain:principal:")
    ++ (star ∷ (literal (codes ":consents:") ++ (star ∷ [])))

abbrev pub consent_patterns : Text → List Pattern
consent_patterns id =
    below_key (Keys.consent id) ∷ below_key (Keys.consent_verification id) ∷ page_pattern ∷ []

abbrev pub fiduciary_patterns : Text → List Pattern
fiduciary_patterns id = below_key (Keys.fiduciary id) ∷ below_key (Keys.compliance_status id) ∷ []

abbrev pub principal_patterns : Text → List Pattern
principal_patterns id = below_key (codes "consentchain:principal:" ++ id) ∷ []

module _ {ℓ} {V : Type ℓ} where
  abbrev pub empty_cache : Cache V
  empty_cache = record {
    local_cache = [];
    stats = record { hits = 0; misses = 0; sets = 0; deletes = 0 };
  }

  abbrev pub hit : Cache V → Cache V
  hit c = record c { stats = record (c.stats) { hits = c.stats.hits + 1 } }

  abbrev pub miss : Cache V → Cache V
  miss c = record c { stats = record (c.stats) { misses = c.stats.misses + 1 } }

  unfoldable pub get : ℕ → Text → Cache V → Cache V × Option V
  get now key c = elim (lookup key c.local_cache) [
    | none ↦ (miss c, none)
    | some entry ↦
        if ltb now entry.1
        then (hit c, some entry.0)
        else (miss (record c { local_cache = erase key c.local_cache }), none)
  ]

  unfoldable pub set : ℕ → Text → V → ℕ → Cache V → Cache V
  set now key value ttl c = record {
    local_cache = insert key (value, now + ttl * second) c.local_cache;
    stats = record (c.stats) { sets = c.stats.sets + 1 };
  }

  unfoldable pub delete : Text → Cache V → Cache V
  delete key c = record {
    local_cache = if contains key c.local_cache then erase key c.local_cache else c.local_cache;
    stats = record (c.stats) { deletes = c.stats.deletes + 1 };
  }

  unfoldable pub delete_pattern : Pattern → Cache V → Cache V × ℕ
  delete_pattern pattern c =
      let deleted = length (keep (λ entry. matches pattern entry.0) c.local_cache) in
      (
        record {
          local_cache = keep (λ entry. not (matches pattern entry.0)) c.local_cache;
          stats = record (c.stats) { deletes = c.stats.deletes + deleted };
        },
        deleted,
      )

  unfoldable pub delete_patterns : List Pattern → Cache V → Cache V
  delete_patterns [] c = c
  delete_patterns (p ∷ ps) c = delete_patterns ps (delete_pattern p c).0

  unfoldable pub invalidate_consent : Text → Cache V → Cache V
  invalidate_consent id c = delete_patterns (consent_patterns id) c

  unfoldable pub invalidate_fiduciary : Text → Cache V → Cache V
  invalidate_fiduciary id c = delete_patterns (fiduciary_patterns id) c

  unfoldable pub invalidate_principal : Text → Cache V → Cache V
  invalidate_principal id c = delete_patterns (principal_patterns id) c

  -- A call of a function that is `cached`, under the key of its arguments: what it would return where
  -- it is called, and when it returns.
  unfoldable pub cached : ℕ → ℕ → Text → ℕ → Option V → Cache V → Cache V × Option V
  cached now later key ttl result c =
      let (c', found) = get now key c in
      elim found [
        | some v ↦ (c', some v)
        | none ↦ elim result [ none ↦ (c', none) | some v ↦ (set later key v ttl c', some v) ]
      ]
