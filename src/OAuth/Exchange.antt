-- ===== src/OAuth/Exchange.antt =====
-- The exchange of a code: what it needs, what it uses up, and what it does not compare.
use Prim.Native.String.{String}
use consentchain.Prelude.{
  ℕ, ◌+◌, ◌≤◌, ◌≡◌, refl, none, some, List, [], ◌∷◌, arith, lookup, erase, insert,
  lookup-erase_self, lookup-insert_self, nat_eq, string_eq, ok, err, Option-cases, inl, inr, ap,
  ◌∙◌,
}
use consentchain.OAuth.{
  OAuthProvider, OAuthConfig, OAuthState, OAuthToken, Response, Service, Post, invalid_state,
  code_of, token_of, redeem, exchange_code,
}

redeem_keeps :
    (post : Post) (now : ℕ) (sid code uri verifier : String) (c : OAuthConfig) (s : Service)
    → let s' = (redeem post now sid code uri verifier c s).0 in
      (s'.states ≡ s.states) × (s'.configs ≡ s.configs)
unfolding redeem
redeem_keeps post now sid code uri v c s = ground arith

exchange_uses_up :
    (post : Post) (now answered : ℕ) (sid : String) (p : OAuthProvider) (code state uri : String)
    (c : OAuthConfig) (s : Service)
    → lookup (code_of p) s.configs ≡ some c
    → let s' = (exchange_code post now answered sid p code state uri s).0 in
      (lookup state s'.states ≡ none) × (s'.configs ≡ s.configs)
unfolding exchange_code
exchange_uses_up post now answered sid p code state uri c s known =
    elim (Option-cases (lookup state s.states)) [
      | inl e ↦ rw (exchange_code, known, e) (e, refl)
      | inr (begun, e) ↦
          let s' : Service = record s { states = erase state s.states } in
          let kept = redeem_keeps post answered sid code uri begun.code_verifier c s' in
          let gone = lookup-erase_self state s.states in
          (ground (arith, kept.0, gone), ground (arith, kept.1))
    ]

refused :
    (post : Post) (now answered : ℕ) (sid : String) (p : OAuthProvider) (code state uri : String)
    (c : OAuthConfig) (s : Service)
    → lookup (code_of p) s.configs ≡ some c
    → lookup state s.states ≡ none
    → exchange_code post now answered sid p code state uri s ≡ (s, err invalid_state)
unfolding exchange_code
refused post now answered sid p code state uri c s known e = rw (exchange_code, known, e) refl

-- A state is used once: in what an exchange with a configured provider leaves, whatever came of it,
-- an exchange with the same state is refused and changes nothing, at any time and whatever the
-- provider that is configured, the code and the redirect address are.
state_single_use :
    (post : Post) (now answered later answered' : ℕ) (sid sid' : String) (p p' : OAuthProvider)
    (code code' state uri uri' : String) (c c' : OAuthConfig) (s : Service)
    → lookup (code_of p) s.configs ≡ some c
    → lookup (code_of p') s.configs ≡ some c'
    → let s' = (exchange_code post now answered sid p code state uri s).0 in
      exchange_code post later answered' sid' p' code' state uri' s' ≡ (s', err invalid_state)
state_single_use post now answered later answered' sid sid' p p' code code' state uri uri' c c' s
      known known' =
    let used = exchange_uses_up post now answered sid p code state uri c s known in
    let s' = (exchange_code post now answered sid p code state uri s).0 in
    refused post later answered' sid' p' code' state uri' c' s'
      (ap (λ d. lookup (code_of p') d) used.1 ∙ known') used.0

-- What the token endpoint is asked.
abbrev pub token_request : OAuthConfig → String → String → String → List (String × String)
token_request c code uri verifier =
    ("client_id", c.client_id)
    ∷ ("client_secret", c.client_secret)
    ∷ ("code", code)
    ∷ ("redirect_uri", uri)
    ∷ ("grant_type", "authorization_code")
    ∷ ("code_verifier", verifier)
    ∷ []

-- An exchange that gives a token had a configured provider and a state that was begun at most ten
-- minutes before the exchange; the provider's token endpoint was asked with the verifier of that state
-- and answered 200; the token expires `expires_in` seconds after the answer, whenever that came, and is
-- kept under the session's identifier.
pub exchange_needs_state :
    (post : Post) (now answered : ℕ) (sid : String) (p : OAuthProvider) (code state uri : String)
    (s : Service) {t : OAuthToken}
    → (exchange_code post now answered sid p code state uri s).1 ≡ ok t
    → (c : OAuthConfig) × (begun : OAuthState) × (r : Response) × (lookup (code_of p) s.configs
        ≡ some c)
      × (lookup state s.states ≡ some begun)
      × (now ≤ begun.created_at + 600)
      × (post c.token_url (token_request c code uri begun.code_verifier) ≡ some r)
      × (r.status_code ≡ 200)
      × (t.expires_at ≡ answered + t.expires_in)
      × (lookup sid (exchange_code post now answered sid p code state uri s).0.sessions ≡ some t)
unfolding exchange_code redeem token_of
exchange_needs_state post now answered sid p code state uri s {t = t} h =
    elim (Option-cases (lookup (code_of p) s.configs)) [
      | inl e ↦ absurd (ground arith)
      | inr (c, known) ↦ elim (Option-cases (lookup state s.states)) [
        | inl e ↦ absurd (ground arith)
        | inr (begun, found) ↦
            elim (Option-cases (post c.token_url (token_request c code uri begun.code_verifier))) [
              | inl e ↦ absurd (ground arith)
              | inr (r, answered) ↦ (
                c,
                begun,
                r,
                known,
                found,
                ground arith,
                answered,
                ground arith,
                ground arith,
                ground (arith, lookup-insert_self sid t s.sessions),
              )
            ]
      ]
    ]

redeem_answer :
    (post : Post) (now : ℕ) (sid code uri verifier : String) (c : OAuthConfig) (s s' : Service)
    → (redeem post now sid code uri verifier c s).1 ≡ (redeem post now sid code uri verifier c s').1
unfolding redeem
redeem_answer post now sid code uri v c s s' = ground arith

-- The provider and the redirect address that a login was begun with are not compared: a stored state
-- with the same time and verifier, of whatever provider and address, gives the same answer.
login_mix_up :
    (post : Post) (now answered : ℕ) (sid : String) (p : OAuthProvider) (code state uri : String)
    (begun other : OAuthState) (s : Service)
    → begun.created_at ≡ other.created_at
    → begun.code_verifier ≡ other.code_verifier
    → (exchange_code post now answered sid p code state uri
        (record s { states = insert state begun s.states })).1
      ≡ (exchange_code post now answered sid p code state uri
          (record s { states = insert state other s.states })).1
unfolding exchange_code
login_mix_up post now answered sid p code state uri begun other s same_time same_verifier =
    let s1 : Service = record s { states = erase state (insert state begun s.states) } in
    let s2 : Service = record s { states = erase state (insert state other s.states) } in
    elim (Option-cases (lookup (code_of p) s.configs)) [
      | inl e ↦ ground arith
      | inr (c, known) ↦ ground (
        arith,
        known,
        lookup-insert_self state begun s.states,
        lookup-insert_self state other s.states,
        redeem_answer post answered sid code uri begun.code_verifier c s1 s2,
      )
    ]
