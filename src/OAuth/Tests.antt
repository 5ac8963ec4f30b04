-- ===== src/OAuth/Tests.antt =====
-- A login with one provider that is configured twice over.
use consentchain.Prelude.{◌+◌, ◌≤◌, ◌≡◌, refl, none, some, [], ◌∷◌, lookup, string_eq, nat_eq, ok}
use consentchain.OAuth.{
  OAuthProvider, google, microsoft, code_of, OAuthConfig, OAuthState, OAuthToken, Response, Service,
  Post, new_service, token_of, redeem, exchange_code,
}
use consentchain.OAuth.Exchange.{exchange_needs_state, token_request}

abbrev config : OAuthProvider → OAuthConfig
config p = record {
  provider = p;
  client_id = "id";
  client_secret = "secret";
  authorization_url = "https://login.example/auth";
  token_url = "https://login.example/token";
  userinfo_url = "https://login.example/me";
  scopes = [];
  redirect_uri = "https://app.example/back";
  issuer_url = none;
  jwks_url = none;
}

abbrev begun : OAuthState
begun = record {
  state = "st";
  code_verifier = "verifier";
  code_challenge = "challenge";
  redirect_uri = "https://app.example/back";
  created_at = 100;
  provider = some google;
}

abbrev service : Service
service = record new_service {
  configs = (code_of google, config google) ∷ (code_of microsoft, config microsoft) ∷ [];
  states = ("st", begun) ∷ [];
}

abbrev answer : Response
answer = record {
  status_code = 200;
  access_token = some "access";
  token_type = none;
  expires_in = some 60;
  refresh_token = none;
  id_token = none;
  scope = none;
}

abbrev post : Post
post url sent = some answer

abbrev token : OAuthToken
token = record {
  access_token = "access";
  token_type = "Bearer";
  expires_in = 60;
  refresh_token = none;
  id_token = none;
  scope = none;
  expires_at = 265;
}

exchanges : (exchange_code post 200 205 "sid" google "code" "st" "uri" service).1 ≡ ok token
unfolding exchange_code lookup redeem token_of
exchanges = refl

exchange_needs_state_example :
    (c : OAuthConfig) × (b : OAuthState) × (r : Response) × (lookup (code_of google) service.configs
      ≡ some c)
    × (lookup "st" service.states ≡ some b)
    × (200 ≤ b.created_at + 600)
    × (post c.token_url (token_request c "code" "uri" b.code_verifier) ≡ some r)
    × (r.status_code ≡ 200)
    × (token.expires_at ≡ 205 + token.expires_in)
    × (lookup "sid" (exchange_code post 200 205 "sid" google "code" "st" "uri" service).0.sessions
        ≡ some token)
exchange_needs_state_example =
    exchange_needs_state post 200 205 "sid" google "code" "st" "uri" service exchanges
