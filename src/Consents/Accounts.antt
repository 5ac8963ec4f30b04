-- ===== src/Consents/Accounts.antt =====
-- The registration of principals and fiduciaries, api/services.py. The hashes of the address, of the
-- phone and of the generated key are arguments.
use Prim.Native.String.{String}
use consentchain.Prelude.{
  Bool, false, ◌||◌, Option, none, some, [], ◌∷◌, Dict, insert, ◌==◌, string_eq, Result, ok, err,
  ◌>>◌, require, not,
}
use consentchain.Consents.{
  Db, Principal, Fiduciary, Error, principal_registered, fiduciary_registered, integrity_error,
  by_wallet,
}

unfoldable pub register_principal :
    String → String → String → Option String → Db → Result Error (Db × Principal)
register_principal new_id wallet email_hash phone_hash db = elim (by_wallet wallet db.principals) [
  | some p ↦ err principal_registered
  | none ↦
      let p : Principal = record {
        wallet_address = wallet;
        email_hash = email_hash;
        phone_hash = phone_hash;
      } in
      ok (record db { principals = insert new_id p db.principals }, p)
]

-- The two columns of fiduciaries that are unique.
unfoldable pub has_number : String → Dict String Fiduciary → Bool
has_number number [] = false
has_number number ((id, f) ∷ fs) = f.registration_number == number || has_number number fs

unfoldable pub has_wallet : String → Dict String Fiduciary → Bool
has_wallet wallet [] = false
has_wallet wallet ((id, f) ∷ fs) = f.wallet_address == wallet || has_wallet wallet fs

unfoldable pub register_fiduciary : String → Fiduciary → Db → Result Error (Db × Fiduciary)
register_fiduciary new_id f db = do
  require (not (has_number f.registration_number db.fiduciaries)) fiduciary_registered
  require (not (has_wallet f.wallet_address db.fiduciaries)) integrity_error
  ok (record db { fiduciaries = insert new_id f db.fiduciaries }, f)
