-- ===== src/WebAuthn.antt =====
-- Passkeys, api/webauthn/__init__.py: the service with its pending challenges, users and
-- credentials. A user is an object that two tables share, so the tables hold references and
-- `objects` is what each reference stands for. Random bytes, readings of the clock in seconds and
-- base64 are arguments. The dicts that come from a browser are records with optional texts; an
-- empty text counts as a missing one, as it does under `not`.
mod Data
mod Accepted
pub mod Challenges
pub mod Counts
pub mod Aliases
mod Tests
pub use Data.*
use Prim.Native.String.{String}
use consentchain.Prelude.{
  ℕ, ◌+◌, Bool, true, false, not, ◌&&◌, Option, none, some, List, [], ◌∷◌, map, ltb, leb, eqb,
  if◌then◌else◌, Dict, lookup, insert, erase, ◌==◌, string_eq, Result, ok, err, or_else, truthy,
}

unfoldable pub set_object : ℕ → WebAuthnUser → Service → Service
set_object r u s = record s { objects = λ q. if eqb q r then u else s.objects q }

unfoldable pub store_challenge : ℕ → String → String → ℕ → Service → Service
store_challenge now user_id challenge ttl_seconds s = record s {
  challenges = insert user_id (challenge, now + ttl_seconds) s.challenges;
}

unfoldable pub verify_challenge : ℕ → String → String → Service → Service × Bool
verify_challenge now user_id challenge s = elim (lookup user_id s.challenges) [
  | none ↦ (s, false)
  | some pending ↦
      if ltb pending.1 now
      then (record s { challenges = erase user_id s.challenges }, false)
      else if pending.0 == challenge
      then (record s { challenges = erase user_id s.challenges }, true)
      else (s, false)
]

-- `_extract_public_key`, a placeholder in the code: random bytes.
unfoldable pub extract_public_key : ℕ → Credential → Option ℕ
extract_public_key random c = elim (truthy c.attestation_object) [
  | none ↦ none
  | some _ ↦ some random
]

create_registration_options :
    (String → String)
    → ℕ
    → String
    → WebAuthnUser
    → List String
    → String
    → String
    → String
    → Service
    → Service × CredentialCreationOptions
create_registration_options base64 now challenge user exclude kind verification attestation s = (
  store_challenge now user.user_id challenge 300 s,
  record {
    rp = (s.rp_id, s.rp_name);
    user = (base64 user.user_id, user.username, user.display_name);
    challenge = challenge;
    algorithms = "-7" ∷ "-257" ∷ "-8" ∷ [];
    timeout = 60000;
    attestation = attestation;
    authenticator_attachment = kind;
    user_verification = verification;
    exclude_credentials = map (λ c. record { id = c; transports = internal ∷ hybrid ∷ [] }) exclude;
  },
)

-- The user's object takes the credential, and the table of credentials a reference to it.
unfoldable pub attach : String → String → ℕ → Service → Service
attach user_id cred_id public_key s = elim (lookup user_id s.users) [
  | none ↦ s
  | some r ↦
      record (set_object r
        (record (s.objects r) {
          credential_id = some cred_id;
          public_key = some public_key;
          sign_count = 0;
          aaguid = none;
        })
        s) { credentials = insert cred_id r s.credentials }
]

unfoldable pub verify_registration :
    ℕ → ℕ → String → Credential → ClientData → Service → Service × Result Error RegistrationResult
verify_registration now random user_id credential client_data s =
    elim (truthy credential.client_data_json) [
      | none ↦ (s, err missing_client_data)
      | some _ ↦
          let checked = verify_challenge now user_id (or_else client_data.challenge "") s in
          let s' = checked.0 in
          if not checked.1
          then (s', err bad_challenge)
          else if not (or_else client_data.kind "" == "webauthn.create")
          then (s', err bad_type)
          else elim (truthy credential.id) [
            | none ↦ (s', err missing_id)
            | some cred_id ↦ elim (truthy credential.attestation_object) [
              | none ↦ (s', err missing_attestation)
              | some _ ↦ elim (extract_public_key random credential) [
                | none ↦ (s', err no_public_key)
                | some key ↦ (
                  attach user_id cred_id key s',
                  ok (record {
                    credential_id = cred_id;
                    public_key = key;
                    sign_count = 0;
                    aaguid = none;
                  }),
                )
              ]
            ]
          ]
    ]

-- The known ones of the credentials that were asked for.
pub allowed : List String → Service → List Descriptor
allowed [] s = []
allowed (c ∷ cs) s =
    let rest = allowed cs s in
    elim (lookup c s.credentials) [
      | none ↦ rest
      | some r ↦
          record {
            id = c;
            transports = elim (s.objects r).transports [ [] ↦ internal ∷ [] | (t ∷ ts) ↦ t ∷ ts ];
          }
          ∷ rest
    ]

unfoldable pub own_credential : Option String → Service → List Descriptor
own_credential none s = []
own_credential (some user_id) s = elim (lookup user_id s.users) [
  | none ↦ []
  | some r ↦ elim (truthy (s.objects r).credential_id) [
    | none ↦ []
    | some c ↦ record { id = c; transports = internal ∷ hybrid ∷ [] } ∷ []
  ]
]

unfoldable pub create_authentication_options :
    ℕ → String → Option String → List String → String → Service → Service × CredentialRequestOptions
create_authentication_options now challenge user_id credential_ids verification s = (
  elim (truthy user_id) [ none ↦ s | some u ↦ store_challenge now u challenge 300 s ],
  record {
    challenge = challenge;
    timeout = 60000;
    rp_id = s.rp_id;
    allow_credentials = elim credential_ids [
      | [] ↦ own_credential (truthy user_id) s
      | (c ∷ cs) ↦ allowed (c ∷ cs) s
    ];
    user_verification = verification;
  },
)

unfoldable pub verify_authentication :
    ℕ → Credential → ClientData → Service → Service × Result Error AuthenticationResult
verify_authentication now credential client_data s = elim (truthy credential.id) [
  | none ↦ (s, err missing_id)
  | some cred_id ↦ elim (lookup cred_id s.credentials) [
    | none ↦ (s, err unknown_credential)
    | some r ↦
        if not (or_else client_data.kind "" == "webauthn.get")
        then (s, err bad_type)
        else let user = s.objects r in
          let checked = verify_challenge now user.user_id (or_else client_data.challenge "") s in
          let s' = checked.0 in
          if not checked.1
          then (s', err bad_challenge)
          else elim (truthy credential.authenticator_data) [
            | none ↦ (s', err missing_authenticator_data)
            | some _ ↦
                let count = or_else credential.signature_count 0 in
                if leb count user.sign_count && not (eqb user.sign_count 0)
                then (s', err clone_detected)
                else (
                  set_object r (record user { sign_count = count }) s',
                  ok (record { user_id = user.user_id; new_sign_count = count }),
                )
          ]
  ]
]

register_user : ℕ → Service → Service
register_user r s = record s { users = insert (s.objects r).user_id r s.users }

get_user : String → Service → Option WebAuthnUser
get_user user_id s = elim (lookup user_id s.users) [ none ↦ none | some r ↦ some (s.objects r) ]

find_username : String → (ℕ → WebAuthnUser) → Dict String ℕ → Option WebAuthnUser
find_username name objects [] = none
find_username name objects ((k, r) ∷ d) =
    let rest = find_username name objects d in
    if (objects r).username == name then some (objects r) else rest

get_user_by_username : String → Service → Option WebAuthnUser
get_user_by_username name s = find_username name s.objects s.users

unfoldable pub remove_credential : String → Service → Service × Bool
remove_credential credential_id s = elim (lookup credential_id s.credentials) [
  | none ↦ (s, false)
  | some r ↦ (
    record (set_object r
        (record (s.objects r) { credential_id = none; public_key = none; sign_count = 0 }) s) {
          credentials = erase credential_id s.credentials;
        },
    true,
  )
]
