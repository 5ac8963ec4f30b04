-- ===== src/Csrf/Bypass.antt =====
-- What the two guards look at.
use Prim.Native.String.{String}
use consentchain.Prelude.{
  ℕ, ◌≡◌, ◌⊎◌, ◌↔◌, true, false, ◌||◌, Option, some, arith, ok, Option-cases, Bool-cases, inl, inr,
  is_in, truthy, string_eq,
}
use consentchain.Csrf.{
  Redis, Store, Request, or_text, safe_methods, is_exempt, exempt_paths, call_next,
  verify_not_awaited, verify_csrf, protect,
}

abbrev pub IsSent : Option String → Type 0
IsSent o = (x : String) × (truthy o ≡ some x)

abbrev pub HasSession : Request → Type 0
HasSession q = (x : String) × (or_text q.session_header q.session_cookie ≡ some x)

verify_csrf-present :
    (R : Redis) (now : ℕ) (drawn : String) (q : Request) (s : Store R.State)
    → (verify_csrf R now drawn q s).1 ≡ ok true
    → (is_in q.method safe_methods ≡ true) ⊎ IsSent q.token_header
unfolding verify_csrf
verify_csrf-present R now drawn q s h = elim (Bool-cases (is_in q.method safe_methods)) [
  | inl e ↦ inl e
  | inr e ↦ elim (Option-cases (truthy q.token_header)) [
    | inl missing ↦ absurd (ground arith)
    | inr sent ↦ inr sent
  ]
]

protect-present :
    (R : Redis) (now : ℕ) (q : Request) (s : Store R.State)
    → (protect R false now q s).1 ≡ call_next
    → ((is_in q.method safe_methods || is_exempt q.path exempt_paths) ≡ true)
      ⊎ (IsSent q.token_header × HasSession q)
unfolding protect
protect-present R now q s h =
    elim (Bool-cases (is_in q.method safe_methods || is_exempt q.path exempt_paths)) [
      | inl e ↦ inl e
      | inr e ↦ elim (Option-cases (truthy q.token_header)) [
        | inl missing ↦ absurd (ground arith)
        | inr sent ↦ elim (Option-cases (or_text q.session_header q.session_cookie)) [
          | inl missing ↦ absurd (ground arith)
          | inr session ↦ inr (sent, session)
        ]
      ]
    ]

-- The dependency accepts a request exactly when its method is a safe one or it brings some token that
-- is not empty; outside of test mode the middleware lets it through exactly when its method is safe,
-- its path exempt, or it brings some token and some session. No token is ever compared with the
-- stored one, and the store plays no role.
guards_look_at_presence :
    (R : Redis) (now : ℕ) (drawn : String) (q : Request) (s : Store R.State)
    → (((verify_csrf R now drawn q s).1 ≡ ok true)
        ↔ ((is_in q.method safe_methods ≡ true) ⊎ IsSent q.token_header))
      × (((protect R false now q s).1 ≡ call_next) ↔ (
          ((is_in q.method safe_methods || is_exempt q.path exempt_paths) ≡ true)
          ⊎ (IsSent q.token_header × HasSession q)))
unfolding verify_csrf protect verify_not_awaited
guards_look_at_presence R now drawn q s = (
  (
    verify_csrf-present R now drawn q s,
    λ h. elim h [ inl safe ↦ ground (arith, safe) | inr sent ↦ ground (arith, sent.1) ],
  ),
  (
    protect-present R now q s,
    λ h. elim h [ inl free ↦ ground (arith, free) | inr both ↦ ground (arith, both.0.1, both.1.1) ],
  ),
)
