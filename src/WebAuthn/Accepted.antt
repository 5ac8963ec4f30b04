-- ===== src/WebAuthn/Accepted.antt =====
-- What an authentication that succeeds has passed, and what it leaves.
use Prim.Native.String.{String}
use consentchain.Prelude.{
  ℕ, ◌<◌, ◌≡◌, ◌⊎◌, true, some, arith, lookup, string_eq, ◌==◌, Option-cases, inl, inr, ok, or_else,
  truthy,
}
use consentchain.WebAuthn.{
  Service, Credential, ClientData, AuthenticationResult, set_object, verify_challenge,
  verify_authentication,
}

module _ (now : ℕ) (c : Credential) (d : ClientData) (s : Service) where
  pub record IsAccepted (r : AuthenticationResult) : Type 0 where
    pub cred_id : String
    pub user : ℕ
    pub named : truthy c.id ≡ some cred_id
    pub known : lookup cred_id s.credentials ≡ some user
    pub typed : (or_else d.kind "" == "webauthn.get") ≡ true
    pub challenged :
        (verify_challenge now (s.objects user).user_id (or_else d.challenge "") s).1 ≡ true
    pub counted :
        ((s.objects user).sign_count ≡ 0)
        ⊎ ((s.objects user).sign_count < or_else c.signature_count 0)
    pub leaves :
        (verify_authentication now c d s).0
        ≡ set_object user
            (record (s.objects user) { sign_count = or_else c.signature_count 0 })
            (verify_challenge now (s.objects user).user_id (or_else d.challenge "") s).0
    pub answers : r ≡ record {
      user_id = (s.objects user).user_id;
      new_sign_count = or_else c.signature_count 0;
    }

  pub verify_authentication-IsAccepted :
      {r : AuthenticationResult} → (verify_authentication now c d s).1 ≡ ok r → IsAccepted r
  unfolding verify_authentication
  verify_authentication-IsAccepted h = elim (Option-cases (truthy c.id)) [
    | inl missing ↦ absurd (ground arith)
    | inr (cred_id, named) ↦ elim (Option-cases (lookup cred_id s.credentials)) [
      | inl missing ↦ absurd (ground arith)
      | inr (user, known) ↦ record {
        cred_id = cred_id;
        user = user;
        named = named;
        known = known;
        typed = ground arith;
        challenged = ground arith;
        counted = ground arith;
        leaves = ground arith;
        answers = ground arith;
      }
    ]
  ]
