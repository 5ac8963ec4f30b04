-- ===== src/WebAuthn/Tests.antt =====
-- The passkey service at a concrete user with two credentials.
use Prim.Native.String.{String}
use consentchain.Prelude.{
  ◌≡◌, ◌≢◌, refl, false, none, some, [], ◌∷◌, arith, lookup, string_eq, ◌==◌, ==_iff, ok, err,
}
use consentchain.WebAuthn.{
  WebAuthnUser, Service, Credential, ClientData, bad_challenge, extract_public_key,
  verify_challenge, verify_registration, verify_authentication, create_authentication_options,
}
use consentchain.WebAuthn.Challenges.{authentication_not_replayed}
use consentchain.WebAuthn.Aliases.{anyone_authenticates}

differ : (x y : String) → (x == y) ≡ false → x ≢ y
differ x y h e = ground (arith, ==_iff x y)

abbrev ann : WebAuthnUser
ann = record {
  user_id = "u1";
  username = "ann";
  display_name = "Ann";
  credential_id = some "key-a";
  public_key = some 7;
  sign_count = 4;
  transports = [];
  aaguid = none;
  created_at = 0;
}

-- Ann with two credentials, and a challenge pending until second 400.
abbrev service : Service
service = record {
  rp_name = "ConsentChain";
  rp_id = "localhost";
  origin = "http://localhost:8001";
  challenges = ("u1", ("nonce", 400)) ∷ [];
  users = ("u1", 0) ∷ [];
  credentials = ("key-a", 0) ∷ ("key-b", 0) ∷ [];
  objects = λ r. ann;
}

abbrev assertion : Credential
assertion = record {
  id = some "key-a";
  client_data_json = some "json";
  attestation_object = some "attestation";
  authenticator_data = some "any";
  signature_count = some 5;
}

abbrev client : ClientData
client = record {
  challenge = some "nonce";
  origin = some "http://evil.example";
  kind = some "webauthn.get";
}

abbrev creation : ClientData
creation = record client { kind = some "webauthn.create" }

authenticates :
    (verify_authentication 100 assertion client service).1
    ≡ ok (record { user_id = "u1"; new_sign_count = 5 })
unfolding verify_authentication verify_challenge lookup
authenticates = refl

authentication_not_replayed_example :
    let s' = (verify_authentication 100 assertion client service).0 in
    verify_authentication 101 assertion client s' ≡ (s', err bad_challenge)
authentication_not_replayed_example =
    authentication_not_replayed 100 101 assertion client service authenticates

registers :
    (verify_registration 100 9 "u1" assertion creation service).1
    ≡ ok (record { credential_id = "key-a"; public_key = 9; sign_count = 0; aaguid = none })
unfolding verify_registration verify_challenge extract_public_key lookup
registers = refl

anyone_authenticates_example :
    let s' = (create_authentication_options 500 "nonce" (some "u1") [] "preferred" service).0 in
    (verify_authentication 600 assertion client s').1
    ≡ ok (record { user_id = "u1"; new_sign_count = 5 })
unfolding lookup
anyone_authenticates_example =
    anyone_authenticates 500 600 0 "nonce" "key-a" "any" "preferred" assertion client service refl
      (differ "u1" "" refl) (omega arith) refl refl (omega arith) refl refl
