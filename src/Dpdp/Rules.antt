-- ===== src/Dpdp/Rules.antt =====
-- The rules as statements about purposes, data types and days.
use Prim.Native.String.{String}
use consentchain.Prelude.{
  ℕ, ◌≤◌, ◌<◌, ◌≡◌, ◌≢◌, ◌⊎◌, ◌↔◌, refl, pos, true, List, [], ◌∷◌, arith, lookup, ◌==◌, ==_iff,
  string_eq, Bool-cases, inl, inr, is_in,
}
use consentchain.Dpdp.{
  sensitive_data_types, has_sensitive, max_days_of, validate_consent_purpose,
  validate_consent_duration,
}

abbrev pub IsAmong : String → List String → Type 0
IsAmong x [] = ⊥
IsAmong x (y ∷ ys) = (x ≡ y) ⊎ IsAmong x ys

is_in-IsAmong : (x : String) (ys : List String) → is_in x ys ≡ true → IsAmong x ys
unfolding is_in
is_in-IsAmong x [] h = cc
is_in-IsAmong x (y ∷ ys) h = elim (Bool-cases (x == y)) [
  | inl e ↦ inl ((==_iff x y).0 e)
  | inr e ↦ inr (is_in-IsAmong x ys (ground arith))
]

IsAmong-is_in : (x : String) (ys : List String) → IsAmong x ys → is_in x ys ≡ true
unfolding is_in
IsAmong-is_in x [] h = absurd h
IsAmong-is_in x (y ∷ ys) (inl e) = ground (arith, ==_iff x y)
IsAmong-is_in x (y ∷ ys) (inr h) = let ih = IsAmong-is_in x ys h in ground arith

-- A sensitive kind of data is among the data types.
abbrev pub IsSensitive : List String → Type 0
IsSensitive ts = (t : String) × IsAmong t ts × IsAmong t sensitive_data_types

has_sensitive-IsSensitive : (ts : List String) → has_sensitive ts ≡ true → IsSensitive ts
unfolding has_sensitive
has_sensitive-IsSensitive [] h = cc
has_sensitive-IsSensitive (t ∷ ts) h = elim (Bool-cases (is_in t sensitive_data_types)) [
  | inl e ↦ (t, inl refl, is_in-IsAmong t sensitive_data_types e)
  | inr e ↦ let (u, here, kind) = has_sensitive-IsSensitive ts (ground arith) in (u, inr here, kind)
]

IsSensitive-has_sensitive :
    (ts : List String) (t : String)
    → IsAmong t ts
    → IsAmong t sensitive_data_types
    → has_sensitive ts ≡ true
unfolding has_sensitive
IsSensitive-has_sensitive [] t here kind = absurd here
IsSensitive-has_sensitive (u ∷ ts) t (inl e) kind =
    let found = IsAmong-is_in t sensitive_data_types kind in ground (arith, found, e)
IsSensitive-has_sensitive (u ∷ ts) t (inr here) kind =
    let ih = IsSensitive-has_sensitive ts t here kind in ground arith

-- A purpose is allowed for data types exactly when it is not sharing with third parties, and is
-- neither marketing nor analytics where a sensitive kind of data is among them.
pub purpose_allowed_iff :
    (purpose : String) (data_types : List String)
    → ((validate_consent_purpose purpose data_types).0 ≡ true) ↔ (
        (purpose ≢ "THIRD_PARTY_SHARING")
        × (IsSensitive data_types → (purpose ≢ "MARKETING") × (purpose ≢ "ANALYTICS")))
unfolding validate_consent_purpose is_in
purpose_allowed_iff p ts =
    let third = ==_iff p "THIRD_PARTY_SHARING" in
    let marketing = ==_iff p "MARKETING" in
    let analytics = ==_iff p "ANALYTICS" in
    (
      λ h. (
        λ e. ground (arith, third, e),
        λ found.
            let s = IsSensitive-has_sensitive ts found.0 found.1 found.2 in
            (λ e. ground (arith, marketing, e, s), λ e. ground (arith, analytics, e, s)),
      ),
      λ h. elim (Bool-cases (has_sensitive ts)) [
        | inl e ↦
            let safe = h.1 (has_sensitive-IsSensitive ts e) in
            ground (arith, third, h.0, marketing, analytics, safe.0, safe.1)
        | inr e ↦ ground (arith, third, h.0)
      ],
    )

max_days_bounded : (purpose : String) → (0 < max_days_of purpose) × (max_days_of purpose ≤ 365)
unfolding lookup
max_days_bounded purpose = ground arith

-- A duration that is allowed for a purpose is at least one day and at most a year, and every shorter
-- duration of at least one day is allowed for it too.
duration_bounds :
    (days shorter : ℕ) (purpose : String)
    → (validate_consent_duration (pos days) purpose).0 ≡ true
    → (1 ≤ days)
      × (days ≤ 365)
      × (1 ≤ shorter → shorter ≤ days → (validate_consent_duration (pos shorter) purpose).0 ≡ true)
unfolding validate_consent_duration
duration_bounds n m purpose h =
    let most = max_days_bounded purpose in
    (ground arith, ground (arith, most), λ one less. ground arith)
