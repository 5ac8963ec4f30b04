-- ===== src/OAuth/Providers.antt =====
-- The providers of logins and their configurations, `OAuthConfig` of api/oauth/__init__.py.
use Prim.Native.String.{String, ◌++◌ as concat}
use consentchain.Prelude.{ℕ, Option, some, List, [], ◌∷◌}

pub data OAuthProvider : Type 0 where
  google microsoft auth0 custom : OAuthProvider

-- Providers as keys of a dict.
abbrev pub code_of : OAuthProvider → ℕ
code_of google = 0
code_of microsoft = 1
code_of auth0 = 2
code_of custom = 3

pub record OAuthConfig : Type 0 where
  pub provider : OAuthProvider
  pub client_id : String
  pub client_secret : String
  pub authorization_url : String
  pub token_url : String
  pub userinfo_url : String
  pub scopes : List String
  pub redirect_uri : String
  pub issuer_url : Option String
  pub jwks_url : Option String

abbrev pub scopes_asked : List String
scopes_asked = "openid" ∷ "email" ∷ "profile" ∷ []

-- The class methods of `OAuthConfig`.
google_config : String → String → String → OAuthConfig
google_config client_id client_secret redirect_uri = record {
  provider = google;
  client_id = client_id;
  client_secret = client_secret;
  authorization_url = "https://accounts.google.com/o/oauth2/v2/auth";
  token_url = "https://oauth2.googleapis.com/token";
  userinfo_url = "https://www.googleapis.com/oauth2/v3/userinfo";
  scopes = scopes_asked;
  redirect_uri = redirect_uri;
  issuer_url = some "https://accounts.google.com";
  jwks_url = some "https://www.googleapis.com/oauth2/v3/certs";
}

microsoft_config : String → String → String → String → OAuthConfig
microsoft_config client_id client_secret redirect_uri tenant_id =
    let base = concat "https://login.microsoftonline.com/" tenant_id in
    record {
      provider = microsoft;
      client_id = client_id;
      client_secret = client_secret;
      authorization_url = concat base "/oauth2/v2.0/authorize";
      token_url = concat base "/oauth2/v2.0/token";
      userinfo_url = "https://graph.microsoft.com/oidc/userinfo";
      scopes = scopes_asked;
      redirect_uri = redirect_uri;
      issuer_url = some (concat base "/v2.0");
      jwks_url = some (concat base "/discovery/v2.0/keys");
    }

auth0_config : String → String → String → String → OAuthConfig
auth0_config client_id client_secret redirect_uri domain =
    let base = concat "https://" domain in
    record {
      provider = auth0;
      client_id = client_id;
      client_secret = client_secret;
      authorization_url = concat base "/authorize";
      token_url = concat base "/oauth/token";
      userinfo_url = concat base "/userinfo";
      scopes = scopes_asked;
      redirect_uri = redirect_uri;
      issuer_url = some (concat base "/");
      jwks_url = some (concat base "/.well-known/jwks.json");
    }
