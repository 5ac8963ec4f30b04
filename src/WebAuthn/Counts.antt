-- ===== src/WebAuthn/Counts.antt =====
-- Signature counts: they show a cloned authenticator.
use consentchain.Prelude.{ℕ, ◌<◌, ◌≤◌, ◌≡◌, ◌≢◌, ◌⊎◌, List, [], ◌∷◌, arith, string_eq, ok}
use consentchain.WebAuthn.{
  Service, Credential, ClientData, AuthenticationResult, set_object, verify_challenge,
  verify_authentication,
}
use consentchain.WebAuthn.Accepted.{verify_authentication-IsAccepted}

-- An authentication that succeeds is one of a registered credential, whose user it returns with the
-- count that was sent: that count is larger than the stored one, unless the stored one is zero, and
-- is then stored. Other users and the credentials stay as they are.
pub authentication_counts :
    (now other : ℕ) (c : Credential) (d : ClientData) (s : Service) {r : AuthenticationResult}
    → (verify_authentication now c d s).1 ≡ ok r
    → let s' = (verify_authentication now c d s).0 in
      (user : ℕ) × (((s.objects user).sign_count ≡ 0)
        ⊎ ((s.objects user).sign_count < r.new_sign_count))
      × ((s'.objects user).sign_count ≡ r.new_sign_count)
      × ((s.objects user).user_id ≡ r.user_id)
      × (other ≢ user → s'.objects other ≡ s.objects other)
      × (s'.credentials ≡ s.credentials)
unfolding set_object verify_challenge
authentication_counts now other c d s h =
    let a = verify_authentication-IsAccepted now c d s h in
    (
      a.user,
      ground (arith, a.counted, a.answers),
      ground (arith, a.leaves, a.answers),
      ground (arith, a.answers),
      λ ne. ground (arith, a.leaves, ne),
      ground (arith, a.leaves, a.challenged),
    )

-- One call of `verify_authentication`.
pub record Attempt : Type 0 where
  pub at : ℕ
  pub credential : Credential
  pub client_data : ClientData

abbrev pub run : List Attempt → Service → Service
run [] s = s
run (a ∷ as') s = run as' (verify_authentication a.at a.credential a.client_data s).0

step_grows :
    (now user : ℕ) (c : Credential) (d : ClientData) (s : Service)
    → (s.objects user).sign_count ≤ ((verify_authentication now c d s).0.objects user).sign_count
unfolding verify_authentication set_object verify_challenge
step_grows now user c d s = ground arith

-- Whatever authentications are tried, the count of a user never falls.
counts_never_fall :
    (as' : List Attempt) (user : ℕ) (s : Service)
    → (s.objects user).sign_count ≤ ((run as' s).objects user).sign_count
counts_never_fall [] user s = omega arith
counts_never_fall (a ∷ as') user s = omega (
  arith,
  step_grows a.at user a.credential a.client_data s,
  counts_never_fall as' user (verify_authentication a.at a.credential a.client_data s).0,
)
