-- ===== src/OAuth.antt =====
-- Logins with other providers, api/oauth/__init__.py: configurations, the states of logins that were
-- begun, and tokens. Random texts, new session identifiers and readings of the clock in seconds are
-- arguments; so are the hash of a verifier, the base64 text of its SHA-256, and the HTTP client: none
-- is an exception, and a JSON answer is a record.
mod Providers
pub mod Exchange
mod Tests
pub use Providers.*
use Prim.Native.String.{String, ◌++◌ as concat}
use consentchain.Prelude.{
  ℕ, ◌+◌, ◌*◌, Bool, true, false, not, Option, none, some, List, [], ◌∷◌, ltb, leb, eqb,
  if◌then◌else◌, Dict, lookup, insert, erase, ◌==◌, Keyed, nat_eq, string_eq, Result, ok, err,
  or_else,
}

pub record OAuthState : Type 0 where
  pub state : String
  pub code_verifier : String
  pub code_challenge : String
  pub redirect_uri : String
  pub created_at : ℕ
  pub provider : Option OAuthProvider

pub record OAuthToken : Type 0 where
  pub access_token : String
  pub token_type : String
  pub expires_in : ℕ
  pub refresh_token : Option String
  pub id_token : Option String
  pub scope : Option String
  pub expires_at : ℕ

abbrev pub is_expired : ℕ → OAuthToken → Bool
is_expired now t = leb t.expires_at now

-- The answer of a token endpoint.
pub record Response : Type 0 where
  pub status_code : ℕ
  pub access_token : Option String
  pub token_type : Option String
  pub expires_in : Option ℕ
  pub refresh_token : Option String
  pub id_token : Option String
  pub scope : Option String

pub record Service : Type 0 where
  pub configs : Dict ℕ OAuthConfig
  pub states : Dict String OAuthState
  pub sessions : Dict String OAuthToken

abbrev pub new_service : Service
new_service = record { configs = []; states = []; sessions = [] }

pub data Error : Type 0 where
  not_configured invalid_state state_expired http_error key_error : Error
  exchange_failed refresh_failed : ℕ → Error

unfoldable pub register_provider : OAuthConfig → Service → Service
register_provider c s = record s { configs = insert (code_of c.provider) c s.configs }

-- `OAuthState.generate`
unfoldable pub generate :
    (String → String) → ℕ → String → String → String → Option OAuthProvider → OAuthState
generate challenge now state verifier redirect_uri provider = record {
  state = state;
  code_verifier = verifier;
  code_challenge = challenge verifier;
  redirect_uri = redirect_uri;
  created_at = now;
  provider = provider;
}

pub join_words : List String → String
join_words [] = ""
join_words (x ∷ []) = x
join_words (x ∷ y ∷ ys) = concat x (concat " " (join_words (y ∷ ys)))

pub query : List (String × String) → String
query [] = ""
query ((k, v) ∷ []) = concat k (concat "=" v)
query ((k, v) ∷ p ∷ ps) = concat k (concat "=" (concat v (concat "&" (query (p ∷ ps)))))

-- Without extra parameters, which would replace those of the same name.
unfoldable pub get_authorization_url :
    (String → String)
    → ℕ
    → String
    → String
    → OAuthProvider
    → String
    → Service
    → Service × Result Error String
get_authorization_url challenge now drawn verifier provider redirect_uri s =
    elim (lookup (code_of provider) s.configs) [
      | none ↦ (s, err not_configured)
      | some config ↦
          let state = generate challenge now drawn verifier redirect_uri (some provider) in
          (
            record s { states = insert drawn state s.states },
            ok (
                concat config.authorization_url (
                  concat "?" (
                    query (
                      ("client_id", config.client_id)
                      ∷ ("redirect_uri", redirect_uri)
                      ∷ ("response_type", "code")
                      ∷ ("scope", join_words config.scopes)
                      ∷ ("state", drawn)
                      ∷ ("code_challenge", state.code_challenge)
                      ∷ ("code_challenge_method", "S256")
                      ∷ ("access_type", "offline")
                      ∷ ("prompt", "consent")
                      ∷ [])))),
          )
    ]

-- `OAuthToken(...)` of the answer: a missing access token raises.
unfoldable pub token_of : ℕ → Option String → Response → Result Error OAuthToken
token_of now old_refresh r = elim r.access_token [
  | none ↦ err key_error
  | some access ↦ ok (record {
    access_token = access;
    token_type = or_else r.token_type "Bearer";
    expires_in = or_else r.expires_in 3600;
    refresh_token = elim r.refresh_token [ none ↦ old_refresh | some t ↦ some t ];
    id_token = r.id_token;
    scope = r.scope;
    expires_at = now + or_else r.expires_in 3600;
  })
]

abbrev pub Post : Type 0
Post = String → List (String × String) → Option Response

-- The request for a token, when it is answered, and the session that keeps the token.
unfoldable pub redeem :
    Post
    → ℕ
    → String
    → String
    → String
    → String
    → OAuthConfig
    → Service
    → Service × Result Error OAuthToken
redeem post answered session_id code redirect_uri verifier config s =
    let sent =
      ("client_id", config.client_id)
      ∷ ("client_secret", config.client_secret)
      ∷ ("code", code)
      ∷ ("redirect_uri", redirect_uri)
      ∷ ("grant_type", "authorization_code")
      ∷ ("code_verifier", verifier)
      ∷ [] in
    elim (post config.token_url sent) [
      | none ↦ (s, err http_error)
      | some r ↦
          if not (eqb r.status_code 200)
          then (s, err (exchange_failed r.status_code))
          else elim (token_of answered none r) [
            | err e ↦ (s, err e)
            | ok token ↦ (record s { sessions = insert session_id token s.sessions }, ok token)
          ]
    ]

unfoldable pub exchange_code :
    Post
    → ℕ
    → ℕ
    → String
    → OAuthProvider
    → String
    → String
    → String
    → Service
    → Service × Result Error OAuthToken
exchange_code post now answered session_id provider code state redirect_uri s =
    elim (lookup (code_of provider) s.configs) [
      | none ↦ (s, err not_configured)
      | some config ↦ elim (lookup state s.states) [
        | none ↦ (s, err invalid_state)
        | some begun ↦
            let s' : Service = record s { states = erase state s.states } in
            if ltb (begun.created_at + 600) now
            then (s', err state_expired)
            else redeem post answered session_id code redirect_uri begun.code_verifier config s'
      ]
    ]

-- The token is returned and not kept; its scope is not read.
unfoldable pub refresh_token : Post → ℕ → OAuthProvider → String → Service → Result Error OAuthToken
refresh_token post now provider old s = elim (lookup (code_of provider) s.configs) [
  | none ↦ err not_configured
  | some config ↦
      let sent =
        ("client_id", config.client_id)
        ∷ ("client_secret", config.client_secret)
        ∷ ("refresh_token", old)
        ∷ ("grant_type", "refresh_token")
        ∷ [] in
      elim (post config.token_url sent) [
        | none ↦ err http_error
        | some r ↦
            if not (eqb r.status_code 200)
            then err (refresh_failed r.status_code)
            else token_of now (some old) (record r { scope = none })
      ]
]
