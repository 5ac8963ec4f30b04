-- ===== src/WebAuthn/Challenges.antt =====
-- Challenges are used once, so that an authentication cannot be replayed.
use Prim.Native.String.{String}
use consentchain.Prelude.{
  ℕ, ◌≤◌, ◌≡◌, ◌≢◌, ◌↔◌, refl, true, false, none, some, arith, lookup, lookup-erase,
  lookup-erase_self, Option-cases, inl, inr, string_eq, ◌==◌, ==_iff, ok, err, or_else, truthy,
}
use consentchain.WebAuthn.Accepted.{verify_authentication-IsAccepted}
use consentchain.WebAuthn.{
  WebAuthnUser, Service, Credential, ClientData, AuthenticationResult, bad_challenge, set_object,
  verify_challenge, verify_authentication,
}

-- The challenge that the user was last given, while it has not expired.
abbrev pub IsPending : ℕ → String → String → Service → Type 0
IsPending now user_id challenge s =
    (expiry : ℕ) × (lookup user_id s.challenges ≡ some (challenge, expiry)) × (now ≤ expiry)

verify_challenge-IsPending :
    (now : ℕ) (u c : String) (s : Service)
    → (verify_challenge now u c s).1 ≡ true
    → IsPending now u c s
unfolding verify_challenge
verify_challenge-IsPending now u c s h = elim (Option-cases (lookup u s.challenges)) [
  | inl missing ↦ absurd (ground arith)
  | inr (p, stored) ↦ (p.1, ground (arith, ==_iff p.0 c), ground arith)
]

-- A challenge is accepted exactly when it is the one that is pending for the user and its time has
-- not passed; it is then no longer stored, and the challenges of other users stay.
verify_iff_IsPending :
    (now : ℕ) (user_id challenge other : String) (s : Service)
    → user_id ≢ other
    → let checked = verify_challenge now user_id challenge s in
      ((checked.1 ≡ true) ↔ IsPending now user_id challenge s)
      × (checked.1 ≡ true → lookup user_id checked.0.challenges ≡ none)
      × (lookup other checked.0.challenges ≡ lookup other s.challenges)
unfolding verify_challenge
verify_iff_IsPending now u c o s ne = (
  (verify_challenge-IsPending now u c s, λ p. ground (arith, p.1, p.2, ==_iff c c)),
  λ h. ground (arith, lookup-erase_self u s.challenges),
  ground (arith, lookup-erase o u s.challenges, ==_iff u o),
)

-- Of two checks for the same user, at whatever times and with whatever challenges, the second fails
-- when the first one succeeded.
challenge_single_use :
    (now later : ℕ) (user_id challenge challenge' : String) (s : Service)
    → (verify_challenge now user_id challenge s).1 ≡ true
    → (verify_challenge later user_id challenge' (verify_challenge now user_id challenge s).0).1
      ≡ false
unfolding verify_challenge
challenge_single_use now later u c c' s h =
    ground (arith, lookup-erase u u s.challenges, ==_iff u u)

-- An authentication for a user without a pending challenge changes nothing.
refused :
    (now user : ℕ) (cred_id : String) (c : Credential) (d : ClientData) (s : Service)
    → truthy c.id ≡ some cred_id
    → (or_else d.kind "" == "webauthn.get") ≡ true
    → lookup cred_id s.credentials ≡ some user
    → lookup (s.objects user).user_id s.challenges ≡ none
    → verify_authentication now c d s ≡ (s, err bad_challenge)
unfolding verify_authentication verify_challenge
refused now user cred_id c d s named typed known idle = ground arith

-- A check that succeeds keeps the credentials and the users.
spent :
    (now user : ℕ) (challenge : String) (u : WebAuthnUser) (s : Service)
    → (verify_challenge now (s.objects user).user_id challenge s).1 ≡ true
    → u.user_id ≡ (s.objects user).user_id
    → let s' = set_object user u (verify_challenge now (s.objects user).user_id challenge s).0 in
      (s'.credentials ≡ s.credentials) × (lookup (s'.objects user).user_id s'.challenges ≡ none)
unfolding verify_challenge set_object
spent now user challenge u s h e =
    (ground arith, ground (arith, lookup-erase_self (s.objects user).user_id s.challenges))

-- An authentication that succeeded cannot be replayed: in the state that it leaves, the same
-- credential and client data are refused at any time, for their challenge, and nothing changes.
pub authentication_not_replayed :
    (now later : ℕ) (c : Credential) (d : ClientData) (s : Service) {r : AuthenticationResult}
    → (verify_authentication now c d s).1 ≡ ok r
    → let s' = (verify_authentication now c d s).0 in
      verify_authentication later c d s' ≡ (s', err bad_challenge)
authentication_not_replayed now later c d s h =
    let a = verify_authentication-IsAccepted now c d s h in
    let sp = spent now a.user (or_else d.challenge "") _ s a.challenged refl in
    rw a.leaves (refused later a.user a.cred_id c d _ a.named a.typed (rw sp.0 a.known) sp.1)
