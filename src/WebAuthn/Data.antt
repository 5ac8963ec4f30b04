-- ===== src/WebAuthn/Data.antt =====
-- The data of the passkey service, api/webauthn/__init__.py: users, what a browser sends, options,
-- results, and the tables of the service.
use Prim.Native.String.{String}
use consentchain.Prelude.{ℕ, Option, List, [], Dict}

pub data AuthenticatorTransport : Type 0 where
  usb nfc ble internal hybrid smart_card : AuthenticatorTransport

pub record WebAuthnUser : Type 0 where
  pub user_id : String
  pub username : String
  pub display_name : String
  pub credential_id : Option String
  pub public_key : Option ℕ
  pub sign_count : ℕ
  pub transports : List AuthenticatorTransport
  pub aaguid : Option String
  pub created_at : ℕ

-- What a credential descriptor says: its id and transports.
pub record Descriptor : Type 0 where
  pub id : String
  pub transports : List AuthenticatorTransport

-- Of the authenticator selection the fields that vary: the resident key is always preferred.
pub record CredentialCreationOptions : Type 0 where
  pub rp : String × String
  pub user : String × String × String
  pub challenge : String
  pub algorithms : List String
  pub timeout : ℕ
  pub attestation : String
  pub authenticator_attachment : String
  pub user_verification : String
  pub exclude_credentials : List Descriptor

pub record CredentialRequestOptions : Type 0 where
  pub challenge : String
  pub timeout : ℕ
  pub rp_id : String
  pub allow_credentials : List Descriptor
  pub user_verification : String

pub data Error : Type 0 where
  missing_client_data bad_challenge bad_type missing_id missing_attestation no_public_key : Error
  unknown_credential missing_authenticator_data clone_detected : Error

pub record RegistrationResult : Type 0 where
  pub credential_id : String
  pub public_key : ℕ
  pub sign_count : ℕ
  pub aaguid : Option String

pub record AuthenticationResult : Type 0 where
  pub user_id : String
  pub new_sign_count : ℕ

-- `credential`, with the fields of its "response"; a count is unsigned, as the protocol has it.
pub record Credential : Type 0 where
  pub id : Option String
  pub client_data_json : Option String
  pub attestation_object : Option String
  pub authenticator_data : Option String
  pub signature_count : Option ℕ

pub record ClientData : Type 0 where
  pub challenge : Option String
  pub origin : Option String
  pub kind : Option String

pub record Service : Type 0 where
  pub rp_name : String
  pub rp_id : String
  pub origin : String
  pub challenges : Dict String (String × ℕ)
  pub users : Dict String ℕ
  pub credentials : Dict String ℕ
  pub objects : ℕ → WebAuthnUser

abbrev pub new_service : String → String → String → (ℕ → WebAuthnUser) → Service
new_service name rp_id origin objects = record {
  rp_name = name;
  rp_id = rp_id;
  origin = origin;
  challenges = [];
  users = [];
  credentials = [];
  objects = objects;
}
