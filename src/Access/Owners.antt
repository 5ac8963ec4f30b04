-- ===== src/Access/Owners.antt =====
-- Whose account a user owns.
use Prim.Native.String.{String}
use consentchain.Prelude.{
  ◌≡◌, ◌⊎◌, ◌↔◌, refl, sym, ap, inl, inr, true, Option, none, some, arith, Dict, lookup, ==_iff,
  string_eq, ok, Bool-cases, Option-cases,
}
use consentchain.Consents.{Principal}
use consentchain.Access.{User, is_some, verify_principal_ownership}

-- The token is the principal's, or it names the wallet of the principal.
abbrev pub IsOwner : String → User → Dict String Principal → Type 0
IsOwner id user principals =
    (user.sub ≡ some id)
    ⊎ ((p : Principal) × (lookup id principals ≡ some p)
        × (user.wallet_address ≡ some p.wallet_address))

is_some_iff : (given : Option String) (x : String) → (is_some given x ≡ true) ↔ (given ≡ some x)
is_some_iff none x = (λ h. absurd (ground arith), λ h. absurd (ground arith))
is_some_iff (some y) x = (λ h. ap some (sym ((==_iff x y).0 h)), λ h. ground (arith, ==_iff x y, h))

let_through :
    (id : String) (user : User) (principals : Dict String Principal)
    → IsOwner id user principals
    → verify_principal_ownership id user principals ≡ ok user
unfolding verify_principal_ownership
let_through id user principals (inl own) =
    rw (verify_principal_ownership, (is_some_iff user.sub id).1 own) refl
let_through id user principals (inr (p, there, wallet)) = elim (Bool-cases (is_some user.sub id)) [
  | inl e ↦ rw (verify_principal_ownership, e) refl
  | inr e ↦
      rw
        (
          verify_principal_ownership,
          e,
          there,
          (is_some_iff user.wallet_address p.wallet_address).1 wallet,
        )
        refl
]

-- A user is let through exactly as the owner of the account, by the token or by the wallet.
pub IsOwner-iff :
    (id : String) (user : User) (principals : Dict String Principal)
    → (verify_principal_ownership id user principals ≡ ok user) ↔ IsOwner id user principals
unfolding verify_principal_ownership
IsOwner-iff id user principals = (
  λ h. elim (Bool-cases (is_some user.sub id)) [
    | inl e ↦ inl ((is_some_iff user.sub id).0 e)
    | inr e ↦ elim (Option-cases (lookup id principals)) [
      | inl e' ↦ absurd (ground arith)
      | inr (p, e') ↦ elim (Bool-cases (is_some user.wallet_address p.wallet_address)) [
        | inl same ↦ inr (p, e', (is_some_iff user.wallet_address p.wallet_address).0 same)
        | inr other ↦ absurd (ground arith)
      ]
    ]
  ],
  let_through id user principals,
)
