-- ===== src/WebAuthn/Aliases.antt =====
-- The two tables of the service share the objects of users; and what is not looked at.
use Prim.Native.String.{String}
use consentchain.Prelude.{
  ℕ, ◌+◌, ◌<◌, ◌≤◌, ◌≡◌, ◌≢◌, refl, true, none, some, [], arith, lookup, lookup-erase,
  lookup-insert_self, lookup-erase_self, string_eq, Bool-cases, inl, inr, ◌==◌, ==_iff, ok, or_else,
  truthy,
}
use consentchain.WebAuthn.{
  Service, Credential, ClientData, RegistrationResult, set_object, attach, verify_challenge,
  store_challenge, extract_public_key, verify_registration, create_authentication_options,
  verify_authentication, remove_credential,
}

-- A registration that succeeds for a user that is known: the new credential leads to the user's
-- object, which has the credential's id and key, and a count of zero.
registration_binds :
    (now random r : ℕ) (user_id : String) (c : Credential) (d : ClientData) (s : Service)
    {res : RegistrationResult}
    → lookup user_id s.users ≡ some r
    → (verify_registration now random user_id c d s).1 ≡ ok res
    → let s' = (verify_registration now random user_id c d s).0 in
      (truthy c.id ≡ some res.credential_id)
      × (lookup res.credential_id s'.credentials ≡ some r)
      × ((s'.objects r).credential_id ≡ some res.credential_id)
      × ((s'.objects r).public_key ≡ some res.public_key)
      × ((s'.objects r).sign_count ≡ 0)
unfolding verify_registration attach set_object verify_challenge
registration_binds now random r u c d s {res = res} known h = (
  ground arith,
  ground (arith, lookup-insert_self res.credential_id r s.credentials),
  ground arith,
  ground arith,
  ground arith,
)

-- For a user that is not known the registration also reports success, and stores no credential.
registration_of_unknown :
    (now random : ℕ) (user_id cred_id a j : String) (c : Credential) (d : ClientData) (s : Service)
    → lookup user_id s.users ≡ none
    → truthy c.id ≡ some cred_id
    → truthy c.client_data_json ≡ some j
    → truthy c.attestation_object ≡ some a
    → or_else d.kind "" ≡ "webauthn.create"
    → (verify_challenge now user_id (or_else d.challenge "") s).1 ≡ true
    → let done = verify_registration now random user_id c d s in
      (done.1
        ≡ ok (record {
          credential_id = cred_id;
          public_key = random;
          sign_count = 0;
          aaguid = none;
        }))
      × (done.0.credentials ≡ s.credentials)
      × (done.0.objects ≡ s.objects)
unfolding verify_registration attach extract_public_key verify_challenge
registration_of_unknown now random u ci a j c d s unknown named sent attested typed ok' = (
  ground (arith, ==_iff (or_else d.kind "") "webauthn.create"),
  ground (arith, ==_iff (or_else d.kind "") "webauthn.create"),
  ground (arith, ==_iff (or_else d.kind "") "webauthn.create"),
)

-- When two credentials lead to the same user, removing one leaves the other registered, on an object
-- without id, key or count.
removal_clears_other :
    (cred_id other : String) (r : ℕ) (s : Service)
    → cred_id ≢ other
    → lookup cred_id s.credentials ≡ some r
    → lookup other s.credentials ≡ some r
    → let (s', done) = remove_credential cred_id s in
      (done ≡ true)
      × (lookup cred_id s'.credentials ≡ none)
      × (lookup other s'.credentials ≡ some r)
      × ((s'.objects r).credential_id ≡ none)
      × ((s'.objects r).public_key ≡ none)
      × ((s'.objects r).sign_count ≡ 0)
unfolding remove_credential set_object
removal_clears_other ci o r s ne known known' = (
  ground arith,
  ground (arith, lookup-erase_self ci s.credentials),
  ground (arith, lookup-erase o ci s.credentials, ==_iff ci o),
  ground arith,
  ground arith,
  ground arith,
)

options_store :
    (now : ℕ) (challenge user_id verification : String) (s : Service)
    → user_id ≢ ""
    → (create_authentication_options now challenge (some user_id) [] verification s).0
      ≡ store_challenge now user_id challenge 300 s
unfolding create_authentication_options
options_store now challenge user_id verification s named = elim (Bool-cases (user_id == "")) [
  | inl e ↦ absurd (named ((==_iff user_id "").0 e))
  | inr e ↦ rw (create_authentication_options, e) refl
]

pending_accepted :
    (later expiry : ℕ) (user_id challenge : String) (s : Service)
    → lookup user_id s.challenges ≡ some (challenge, expiry)
    → later ≤ expiry
    → (verify_challenge later user_id challenge s).1 ≡ true
unfolding verify_challenge
pending_accepted later e u ch s pending in_time = ground (arith, ==_iff ch ch)

pending_authenticates :
    (later r expiry : ℕ) (challenge cred_id proof : String) (c : Credential) (d : ClientData)
    (s : Service)
    → lookup cred_id s.credentials ≡ some r
    → lookup (s.objects r).user_id s.challenges ≡ some (challenge, expiry)
    → later ≤ expiry
    → truthy c.id ≡ some cred_id
    → truthy c.authenticator_data ≡ some proof
    → (s.objects r).sign_count < or_else c.signature_count 0
    → d.challenge ≡ some challenge
    → d.kind ≡ some "webauthn.get"
    → (verify_authentication later c d s).1
      ≡ ok
          (record { user_id = (s.objects r).user_id; new_sign_count = or_else c.signature_count 0 })
unfolding verify_authentication
pending_authenticates later r e ch ci proof c d s known pending in_time sent signed counts back
      typed =
    let kind : (or_else d.kind "" == "webauthn.get") ≡ true = rw typed refl in
    let checked : (verify_challenge later (s.objects r).user_id (or_else d.challenge "") s).1
        ≡ true =
      rw back (pending_accepted later e (s.objects r).user_id ch s pending in_time) in
    ground arith

-- No signature is checked: for a registered credential, whoever asks for authentication options of
-- its user, whose id is not empty, and sends the challenge back within 300 seconds, with any
-- authenticator data that is not empty and a count above the stored one, is authenticated as the
-- user, whatever the user's key is.
pub anyone_authenticates :
    (now later r : ℕ) (challenge cred_id proof verification : String) (c : Credential)
    (d : ClientData) (s : Service)
    → lookup cred_id s.credentials ≡ some r
    → (s.objects r).user_id ≢ ""
    → later ≤ now + 300
    → truthy c.id ≡ some cred_id
    → truthy c.authenticator_data ≡ some proof
    → (s.objects r).sign_count < or_else c.signature_count 0
    → d.challenge ≡ some challenge
    → d.kind ≡ some "webauthn.get"
    → let s' =
        (create_authentication_options now challenge
          (some (s.objects r).user_id)
          []
          verification
          s).0 in
      (verify_authentication later c d s').1
      ≡ ok
          (record { user_id = (s.objects r).user_id; new_sign_count = or_else c.signature_count 0 })
unfolding store_challenge
anyone_authenticates now later r ch ci proof verification c d s known named in_time sent signed
      counts back typed =
    let user_id = (s.objects r).user_id in
    rw (options_store now ch user_id verification s named) (
      pending_authenticates later r (now + 300) ch ci proof c d
        (store_challenge now user_id ch 300 s) known (lookup-insert_self user_id _ s.challenges)
        in_time sent signed counts back typed)
