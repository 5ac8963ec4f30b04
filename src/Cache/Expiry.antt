-- ===== src/Cache/Expiry.antt =====
-- What is set is found until it expires, and how calls are counted.
use consentchain.Prelude.{
  ℕ, ◌+◌, ◌*◌, ◌≡◌, ◌∙◌, refl, true, false, Bool, Option, none, some, List, [], ◌∷◌, arith, ltb,
  if◌then◌else◌, length, keep, lookup, contains, lookup-insert, lookup-insert_self, lookup-erase,
  ◌==◌, list_eq, nat_eq, Bool-cases, Option-cases, inl, inr,
}
use consentchain.Cache.Keys.{Text}
use consentchain.Cache.{Cache, second, get, set, delete, cached}

-- Calls of the cache.
pub data Call {ℓ} (V : Type ℓ) : Type ℓ where
  reads : ℕ → Text → Call V
  writes : ℕ → Text → V → ℕ → Call V
  drops : Text → Call V

module _ {ℓ} {V : Type ℓ} where
  unfoldable pub run : List (Call V) → Cache V → Cache V
  run [] c = c
  run (reads now key ∷ calls) c = run calls (get now key c).0
  run (writes now key v ttl ∷ calls) c = run calls (set now key v ttl c)
  run (drops key ∷ calls) c = run calls (delete key c)

  abbrev pub key_of : Call V → Text
  key_of (reads now key) = key
  key_of (writes now key v ttl) = key
  key_of (drops key) = key

  abbrev pub is_read : Call V → Bool
  is_read (reads now key) = true
  is_read call = false

  -- Calls with other keys.
  abbrev pub IsApart : Text → List (Call V) → Type 0
  IsApart key [] = Unit {0}
  IsApart key (call ∷ calls) = ((key_of call == key) ≡ false) × IsApart key calls

  get-apart :
      (now : ℕ) (key k : Text) (c : Cache V)
      → (k == key) ≡ false
      → lookup key (get now k c).0.local_cache ≡ lookup key c.local_cache
  unfolding get
  get-apart now key k c apart = elim (Option-cases (lookup k c.local_cache)) [
    | inl e ↦ rw (get, e) refl
    | inr (entry, e) ↦ elim (Bool-cases (ltb now entry.1)) [
      | inl e' ↦ rw (get, e, e') refl
      | inr e' ↦ rw (get, e, e') (lookup-erase key k c.local_cache ∙ rw apart refl)
    ]
  ]

  delete-apart :
      (key k : Text) (c : Cache V)
      → (k == key) ≡ false
      → lookup key (delete k c).local_cache ≡ lookup key c.local_cache
  unfolding delete
  delete-apart key k c apart = elim (Bool-cases (contains k c.local_cache)) [
    | inl e ↦ rw e (lookup-erase key k c.local_cache ∙ rw apart refl)
    | inr e ↦ rw e refl
  ]

  run-apart :
      (key : Text) (calls : List (Call V)) (c : Cache V)
      → IsApart key calls
      → lookup key (run calls c).local_cache ≡ lookup key c.local_cache
  unfolding run set
  run-apart key [] c apart = refl
  run-apart key (reads now k ∷ calls) c (here, rest) =
      run-apart key calls (get now k c).0 rest ∙ get-apart now key k c here
  run-apart key (writes now k v ttl ∷ calls) c (here, rest) =
      run-apart key calls (set now k v ttl c) rest
      ∙ lookup-insert key k (v, now + ttl * second) c.local_cache
      ∙ rw here refl
  run-apart key (drops k ∷ calls) c (here, rest) =
      run-apart key calls (delete k c) rest ∙ delete-apart key k c here

  get-entry :
      (later t : ℕ) (key : Text) (v : V) (c : Cache V)
      → lookup key c.local_cache ≡ some (v, t)
      → (get later key c).1 ≡ (if ltb later t then some v else none)
  unfolding get
  get-entry later t key v c there = elim (Bool-cases (ltb later t)) [
    | inl e ↦ rw (get, there, e) refl
    | inr e ↦ rw (get, there, e) refl
  ]

  cached-entry :
      (later end t ttl : ℕ) (key : Text) (v : V) (result : Option V) (c : Cache V)
      → lookup key c.local_cache ≡ some (v, t)
      → ltb later t ≡ true
      → (cached later end key ttl result c).1 ≡ some v
  unfolding cached get
  cached-entry later end t ttl key v result c there live = rw (cached, get, there, live) refl

  -- A value that is set is read, after any calls with other keys, exactly until its time to live has
  -- passed; and until then a function that is cached under the key is answered with it, whatever it
  -- would return now.
  pub set_until_expiry :
      (now ttl later end : ℕ) (key : Text) (v : V) (result : Option V) (calls : List (Call V))
      (c : Cache V)
      → IsApart key calls
      → let after = run calls (set now key v ttl c) in
        ((get later key after).1 ≡ (if ltb later (now + ttl * second) then some v else none))
        × (ltb later (now + ttl * second) ≡ true
            → (cached later end key ttl result after).1 ≡ some v)
  unfolding set
  set_until_expiry now ttl later end key v result calls c apart =
      let there : lookup key (run calls (set now key v ttl c)).local_cache
          ≡ some (v, now + ttl * second) =
        run-apart key calls (set now key v ttl c) apart
        ∙ lookup-insert_self key (v, now + ttl * second) c.local_cache in
      (
        get-entry later (now + ttl * second) key v _ there,
        λ live. cached-entry later end (now + ttl * second) ttl key v result _ there live,
      )

  get_counted :
      (now : ℕ) (key : Text) (c : Cache V)
      → (get now key c).0.stats.hits + (get now key c).0.stats.misses
        ≡ c.stats.hits + c.stats.misses + 1
  unfolding get
  get_counted now key c = elim (Option-cases (lookup key c.local_cache)) [
    | inl e ↦ rw (get, e) (omega arith)
    | inr (entry, e) ↦ elim (Bool-cases (ltb now entry.1)) [
      | inl e' ↦ rw (get, e, e') (omega arith)
      | inr e' ↦ rw (get, e, e') (omega arith)
    ]
  ]

  -- Hits and misses together count the reads.
  pub reads_counted :
      (calls : List (Call V)) (c : Cache V)
      → (run calls c).stats.hits + (run calls c).stats.misses
        ≡ c.stats.hits + c.stats.misses + length (keep is_read calls)
  unfolding run set delete
  reads_counted [] c = omega arith
  reads_counted (reads now k ∷ calls) c =
      omega (arith, reads_counted calls (get now k c).0, get_counted now k c)
  reads_counted (writes now k v ttl ∷ calls) c = reads_counted calls (set now k v ttl c)
  reads_counted (drops k ∷ calls) c = reads_counted calls (delete k c)
