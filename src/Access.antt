-- ===== src/Access.antt =====
-- Who a request comes from, api/dependencies.py: the API keys of fiduciaries, with their cache in
-- Redis, the owner of a principal's account, and the form of a wallet address. A key is given by its
-- hash; whether Redis answers a read and takes a write are arguments, both false where there is no
-- client; JSON texts are the records that they are made of. Times are seconds.
pub mod Keys
pub mod Owners
mod Tests
use Prim.Native.String.{String}
use consentchain.Prelude.{
  ℕ, zero, suc, ◌+◌, Bool, true, false, ◌&&◌, ◌||◌, Option, none, some, List, [], ◌∷◌, ltb, leb,
  keep, if◌then◌else◌, Dict, lookup, insert, ◌==◌, string_eq, Result, ok, err,
}
use consentchain.Consents.{Fiduciary, Principal}

pub data Error : Type 0 where
  invalid_api_key multiple_results access_denied : Error

pub record FiduciaryData : Type 0 where
  pub fiduciary_id : String
  pub name : String
  pub wallet_address : String
  pub tier : String

-- The rows have no column `tier`.
abbrev pub data_of : String → Fiduciary → FiduciaryData
data_of id f = record {
  fiduciary_id = id;
  name = f.name;
  wallet_address = f.wallet_address;
  tier = "unknown";
}

-- What is cached under the hash of a key, and when it expires.
abbrev pub KeyCache : Type 0
KeyCache = Dict String (FiduciaryData × ℕ)

unfoldable pub read_cache : Bool → ℕ → String → KeyCache → Option FiduciaryData
read_cache reads now hash cache =
    if reads
    then elim (lookup hash cache) [
      | none ↦ none
      | some entry ↦ if ltb now entry.1 then some entry.0 else none
    ]
    else none

-- `scalar_one_or_none` of the rows with the hash, which is not unique.
unfoldable pub one_of : List (String × Fiduciary) → Result Error FiduciaryData
one_of [] = err invalid_api_key
one_of (row ∷ []) = ok (data_of row.0 row.1)
one_of (row ∷ other ∷ rows) = err multiple_results

unfoldable pub find_fiduciary : String → Dict String Fiduciary → Result Error FiduciaryData
find_fiduciary hash fiduciaries = one_of (keep (λ row. row.1.api_key_hash == hash) fiduciaries)

-- The cached answer, or else the one of the table, which is cached.
abbrev pub answer_of :
    Bool
    → ℕ
    → String
    → KeyCache
    → Option FiduciaryData
    → Result Error FiduciaryData
    → Result Error (KeyCache × FiduciaryData)
answer_of writes now hash cache (some cached) table = ok (cache, cached)
answer_of writes now hash cache none (err e) = err e
answer_of writes now hash cache none (ok d) =
    ok ((if writes then insert hash (d, now + 300) cache else cache), d)

unfoldable pub verify_fiduciary_api_key :
    Bool
    → Bool
    → ℕ
    → String
    → Dict String Fiduciary
    → KeyCache
    → Result Error (KeyCache × FiduciaryData)
verify_fiduciary_api_key reads writes now hash fiduciaries cache =
    answer_of writes now hash cache (read_cache reads now hash cache)
      (find_fiduciary hash fiduciaries)

-- `payload.get("sub")` and `payload.get("wallet_address")`
pub record User : Type 0 where
  pub sub : Option String
  pub wallet_address : Option String

abbrev pub is_some : Option String → String → Bool
is_some none x = false
is_some (some y) x = x == y

unfoldable pub verify_principal_ownership :
    String → User → Dict String Principal → Result Error User
verify_principal_ownership principal_id user principals =
    if is_some user.sub principal_id then ok user else elim (lookup principal_id principals) [
      | none ↦ err access_denied
      | some p ↦ if is_some user.wallet_address p.wallet_address then ok user else err access_denied
    ]

-- `[A-Z2-7]`
abbrev pub is_base32 : ℕ → Bool
is_base32 c = leb b'A' c && leb c b'Z' || leb b'2' c && leb c b'7'

-- `^[A-Z2-7]{n}$` on a list of character codes; `$` also stands before a line feed that ends the text.
unfoldable pub matches_wallet : ℕ → List ℕ → Bool
matches_wallet zero [] = true
matches_wallet zero (c ∷ []) = leb 10 c && leb c 10
matches_wallet zero (c ∷ d ∷ cs) = false
matches_wallet (suc n) [] = false
matches_wallet (suc n) (c ∷ cs) = is_base32 c && matches_wallet n cs

abbrev pub validate_wallet_address : List ℕ → Bool
validate_wallet_address wallet = matches_wallet 58 wallet
