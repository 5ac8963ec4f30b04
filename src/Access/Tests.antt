-- ===== src/Access/Tests.antt =====
-- A fiduciary whose row is removed while its key is cached, an owner by wallet, and an address.
use Prim.Native.String.{String}
use consentchain.Prelude.{
  ℕ, ◌+◌, ◌≡◌, ◌<◌, ◌⊎◌, ◌↔◌, refl, true, none, some, List, [], ◌∷◌, get_elem?, Dict, lookup,
  insert, string_eq, ok,
}
use consentchain.Consents.{Fiduciary, Principal}
use consentchain.Access.{
  FiduciaryData, KeyCache, data_of, read_cache, one_of, find_fiduciary, verify_fiduciary_api_key,
  User, verify_principal_ownership,
}
use consentchain.Access.Keys.{Reading, readings, Reach, start, changes, calls, holder_was_known}
use consentchain.Access.Owners.{IsOwner, IsOwner-iff}

abbrev bank : Fiduciary
bank = record {
  name = "Bank";
  registration_number = "R1";
  wallet_address = "W1";
  api_key_hash = "h1";
}

abbrev table : Dict String Fiduciary
table = ("f1", bank) ∷ []

abbrev known : FiduciaryData
known = data_of "f1" bank

abbrev cache : KeyCache
cache = ("h1", (known, 300)) ∷ []

first_call : verify_fiduciary_api_key true true 0 "h1" table [] ≡ ok (cache, known)
unfolding verify_fiduciary_api_key read_cache find_fiduciary one_of lookup insert
first_call = refl

abbrev log : List Reading
log = readings true 0 "h1" table [] []

removed : Reach [] cache log
removed = changes [] (calls true true 0 "h1" (changes table start) first_call)

still_answered : verify_fiduciary_api_key true true 299 "h1" [] cache ≡ ok (cache, known)
unfolding verify_fiduciary_api_key read_cache lookup
still_answered = refl

holder_was_known_example :
    (find_fiduciary "h1" [] ≡ ok known)
    ⊎ ((at i : ℕ) × (get_elem? log i ≡ some (record { at = at; hash = "h1"; found = known }))
        × (299 < at + 300))
holder_was_known_example = holder_was_known true true 299 "h1" removed still_answered

abbrev user : User
user = record { sub = none; wallet_address = some "W2" }

abbrev ann : Principal
ann = record { wallet_address = "W2"; email_hash = "e"; phone_hash = none }

abbrev principals : Dict String Principal
principals = ("p1", ann) ∷ []

IsOwner-iff_example :
    (verify_principal_ownership "p1" user principals ≡ ok user) ↔ IsOwner "p1" user principals
IsOwner-iff_example = IsOwner-iff "p1" user principals
