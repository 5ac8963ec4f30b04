-- ===== src/Access/Keys.antt =====
-- What an answer for an API key rests on.
use Prim.Native.String.{String}
use consentchain.Prelude.{
  ℕ, suc, ◌+◌, ◌≡◌, ◌<◌, ◌∙◌, refl, sym, ap, ◌⊎◌, inl, inr, true, false, Bool, Option, none, some,
  List, [], ◌∷◌, arith, if◌then◌else◌, get_elem?, Dict, lookup, insert, lookup-insert, ◌==◌, ==_iff,
  string_eq, Result, ok, err, Option-cases, Bool-cases,
}
use consentchain.Consents.{Fiduciary}
use consentchain.Access.{
  Error, FiduciaryData, KeyCache, answer_of, read_cache, find_fiduciary, verify_fiduciary_api_key,
}

-- What was read of the table for a key, and when.
pub record Reading : Type 0 where
  pub at : ℕ
  pub hash : String
  pub found : FiduciaryData

-- The readings after a call: the latest first.
unfoldable pub readings :
    Bool → ℕ → String → Dict String Fiduciary → KeyCache → List Reading → List Reading
readings reads now hash fiduciaries cache log = elim (read_cache reads now hash cache) [
  | some d ↦ log
  | none ↦ elim (find_fiduciary hash fiduciaries) [
    | err e ↦ log
    | ok d ↦ record { at = now; hash = hash; found = d } ∷ log
  ]
]

-- Calls that answer, between any changes of the table.
pub data Reach : Dict String Fiduciary → KeyCache → List Reading → Type 0 where
  start : Reach [] [] []
  changes :
      {fs : Dict String Fiduciary} {cache : KeyCache} {log : List Reading}
      (fs' : Dict String Fiduciary)
      → Reach fs cache log
      → Reach fs' cache log
  calls :
      {fs : Dict String Fiduciary} {cache cache' : KeyCache} {log : List Reading}
      {d : FiduciaryData} (reads writes : Bool) (now : ℕ) (hash : String)
      → Reach fs cache log
      → verify_fiduciary_api_key reads writes now hash fs cache ≡ ok (cache', d)
      → Reach fs cache' (readings reads now hash fs cache log)

-- The answer was read of the table, and expires after 300 seconds.
abbrev pub IsRead : String → FiduciaryData → ℕ → List Reading → Type 0
IsRead hash d expires log =
    (at i : ℕ) × (get_elem? log i ≡ some (record { at = at; hash = hash; found = d }))
    × (expires ≡ at + 300)

abbrev IsBacked : KeyCache → List Reading → Type 0
IsBacked cache log =
    (hash : String) (d : FiduciaryData) (expires : ℕ)
    → lookup hash cache ≡ some (d, expires)
    → IsRead hash d expires log

older :
    (hash : String) (d : FiduciaryData) (expires : ℕ) (log : List Reading) (r : Reading)
    → IsRead hash d expires log
    → IsRead hash d expires (r ∷ log)
older hash d expires log r (at, i, there, e) = (at, suc i, there, e)

-- A call either answers from the cache or reads the table.
answer_cases :
    (writes : Bool) (now : ℕ) (hash : String) (cache cache' : KeyCache) (d : FiduciaryData)
    (cached : Option FiduciaryData) (table : Result Error FiduciaryData)
    → answer_of writes now hash cache cached table ≡ ok (cache', d)
    → ((cached ≡ some d) × (cache' ≡ cache))
      ⊎ ((cached ≡ none)
          × (table ≡ ok d)
          × (cache' ≡ (if writes then insert hash (d, now + 300) cache else cache)))
answer_cases writes now hash cache cache' d (some found) table h = inl (ground arith, ground arith)
answer_cases writes now hash cache cache' d none (err e) h = absurd (ground arith)
answer_cases writes now hash cache cache' d none (ok found) h =
    let same : found ≡ d = cc in
    let kept : cache' ≡ (if writes then insert hash (found, now + 300) cache else cache) = cc in
    inr (
      refl,
      ap ok same,
      kept ∙ ap (λ x. if writes then insert hash (x, now + 300) cache else cache) same,
    )

live_read :
    (reads : Bool) (now : ℕ) (hash : String) (cache : KeyCache) (d : FiduciaryData)
    → read_cache reads now hash cache ≡ some d
    → (t : ℕ) × (lookup hash cache ≡ some (d, t)) × (now < t)
unfolding read_cache
live_read false now hash cache d h = absurd (ground arith)
live_read true now hash cache d h = elim (Option-cases (lookup hash cache)) [
  | inl e ↦ absurd (ground arith)
  | inr ((found, t), e) ↦
      (t, let same : found ≡ d = ground arith in e ∙ ap (λ x. some (x, t)) same, ground arith)
]

older-IsBacked :
    (cache : KeyCache) (log : List Reading) (r : Reading)
    → IsBacked cache log
    → IsBacked cache (r ∷ log)
older-IsBacked cache log r backed hash d expires there =
    older hash d expires log r (backed hash d expires there)

insert_own :
    (k hash : String) (v w : FiduciaryData × ℕ) (cache : KeyCache)
    → (hash == k) ≡ true
    → lookup k (insert hash v cache) ≡ some w
    → some v ≡ some w
insert_own k hash v w cache own there =
    let changed = lookup-insert k hash v cache in ground (arith, changed)

insert_other :
    (k hash : String) (v w : FiduciaryData × ℕ) (cache : KeyCache)
    → (hash == k) ≡ false
    → lookup k (insert hash v cache) ≡ some w
    → lookup k cache ≡ some w
insert_other k hash v w cache other there =
    let changed = lookup-insert k hash v cache in ground (arith, changed)

insert-IsBacked :
    (now : ℕ) (hash : String) (d : FiduciaryData) (cache : KeyCache) (log : List Reading)
    → IsBacked cache log
    → IsBacked
        (insert hash (d, now + 300) cache)
        (record { at = now; hash = hash; found = d } ∷ log)
insert-IsBacked now hash d cache log backed k x t there = elim (Bool-cases (hash == k)) [
  | inl own ↦
      let entry : ◌≡◌ {A = Option (FiduciaryData × ℕ)} (some (d, now + 300)) (some (x, t)) =
        insert_own k hash (d, now + 300) (x, t) cache own there in
      let key = (==_iff hash k).0 own in
      let who : d ≡ x = cc in let when : now + 300 ≡ t = cc in (now, 0, cc, sym when)
  | inr other ↦
      older k x t log _ (backed k x t (insert_other k hash (d, now + 300) (x, t) cache other there))
]

read-IsBacked :
    (writes : Bool) (now : ℕ) (hash : String) (d : FiduciaryData) (cache : KeyCache)
    (log : List Reading)
    → IsBacked cache log
    → IsBacked
        (if writes then insert hash (d, now + 300) cache else cache)
        (record { at = now; hash = hash; found = d } ∷ log)
read-IsBacked true now hash d cache log backed = insert-IsBacked now hash d cache log backed
read-IsBacked false now hash d cache log backed = older-IsBacked cache log _ backed

Reach-IsBacked :
    {fs : Dict String Fiduciary} {cache : KeyCache} {log : List Reading}
    → Reach fs cache log
    → IsBacked cache log
unfolding verify_fiduciary_api_key lookup readings
Reach-IsBacked start = λ hash d expires there. absurd (ground arith)
Reach-IsBacked (changes fs' r) = Reach-IsBacked r
Reach-IsBacked
      (calls {fs = fs} {cache = cache} {cache' = cache'} {log = log} {d = d} reads writes now hash r
        answers) =
    elim (answer_cases writes now hash cache cache' d (read_cache reads now hash cache)
      (find_fiduciary hash fs) answers) [
        | inl (e, same) ↦ rw (same, readings, e) (Reach-IsBacked r)
        | inr (e, table, same) ↦
            rw (same, readings, e, table)
              (read-IsBacked writes now hash d cache log (Reach-IsBacked r))
      ]

-- Whatever calls and changes of the table came before: who a key is answered with is either what the
-- table has for the key now, or what it had for it at a time less than 300 seconds ago.
pub holder_was_known :
    {fs : Dict String Fiduciary} {cache cache' : KeyCache} {log : List Reading} {d : FiduciaryData}
    (reads writes : Bool) (now : ℕ) (hash : String)
    → Reach fs cache log
    → verify_fiduciary_api_key reads writes now hash fs cache ≡ ok (cache', d)
    → (find_fiduciary hash fs ≡ ok d)
      ⊎ ((at i : ℕ) × (get_elem? log i ≡ some (record { at = at; hash = hash; found = d }))
          × (now < at + 300))
unfolding verify_fiduciary_api_key
holder_was_known {fs = fs} {cache = cache} {cache' = cache'} {d = d} reads writes now hash r
      answers =
    elim (answer_cases writes now hash cache cache' d (read_cache reads now hash cache)
      (find_fiduciary hash fs) answers) [
        | inr (e, table, same) ↦ inl table
        | inl (e, same) ↦
            let (t, there, live) = live_read reads now hash cache d e in
            let (at, i, logged, expires) = Reach-IsBacked r hash d t there in
            inr (at, i, logged, omega arith)
      ]
