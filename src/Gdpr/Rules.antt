-- ===== src/Gdpr/Rules.antt =====
-- When a consent meets the rules, and how long it may be kept.
use Prim.Native.String.{String}
use consentchain.Prelude.{
  ℕ, ◌≡◌, ◌≤◌, ◌↔◌, refl, ap, true, false, not, Bool, ◌&&◌, Option, none, some, List, [], ◌∷◌, ◌++◌,
  arith, ltb, length, ◌==◌, ==_iff, ==-self, string_eq, is_in, Bool-cases, inl, inr,
}
use consentchain.Gdpr.{
  Violation, legal_bases, special_categories, strip, has_special, when, age_violations, is_nil,
  validate_consent, invalid_legal_basis, explicit_required, unspecific_purpose, too_many_types,
}

-- The legal bases of article 6 and the special categories of article 9 that the service knows.
abbrev article_6 : List String
article_6 =
    "consent" ∷ "contract" ∷ "legal_obligation" ∷ "vital_interests" ∷ "public_task"
    ∷ "legitimate_interests" ∷ []

abbrev article_9 : List String
article_9 =
    "racial_ethnic" ∷ "political" ∷ "religious" ∷ "trade_union" ∷ "genetic" ∷ "biometric" ∷ "health"
    ∷ "sexual_orientation" ∷ []

-- What the rules ask of a consent.
abbrev pub IsLawful : List ℕ → List String → String → Bool → Option ℕ → Type 0
IsLawful purpose types basis explicit age =
    (is_in basis article_6 ≡ true)
    × ((t : String) → is_in t types ≡ true → is_in t article_9 ≡ true → explicit ≡ true)
    × ((a : ℕ) → age ≡ some a → 16 ≤ a)
    × (10 ≤ length (strip purpose))
    × (length types ≤ 10)

no_violation_iff :
    (b c : Bool) (ages : List Violation) (d e : Bool) (v w x y : Violation)
    → (is_nil (when b v ++ when c w ++ ages ++ when d x ++ when e y) ≡ true)
      ↔ ((b ≡ false) × (c ≡ false) × (is_nil ages ≡ true) × (d ≡ false) × (e ≡ false))
no_violation_iff true c ages d e v w x y = (λ h. absurd (ground arith), λ h. absurd (ground arith))
no_violation_iff false true ages d e v w x y =
    (λ h. absurd (ground arith), λ h. absurd (ground arith))
no_violation_iff false false (a ∷ ages) d e v w x y =
    (λ h. absurd (ground arith), λ h. absurd (ground arith))
no_violation_iff false false [] true e v w x y =
    (λ h. absurd (ground arith), λ h. absurd (ground arith))
no_violation_iff false false [] false true v w x y =
    (λ h. absurd (ground arith), λ h. absurd (ground arith))
no_violation_iff false false [] false false v w x y =
    (λ h. (refl, refl, refl, refl, refl), λ h. refl)

special_iff :
    (types : List String) (explicit : Bool)
    → (has_special types && not explicit ≡ false)
      ↔ ((t : String) → is_in t types ≡ true → is_in t special_categories ≡ true → explicit ≡ true)
unfolding has_special is_in
special_iff types true = (λ h t there special. refl, λ h. ground arith)
special_iff [] false = (λ h t there special. absurd (ground arith), λ h. refl)
special_iff (u ∷ types) false =
    let ih = special_iff types false in
    elim (Bool-cases (is_in u special_categories)) [
      | inl e ↦ (
        (λ h. absurd (ground (arith, e))),
        (λ h. absurd (ground (arith, h u (ground (arith, ==-self u)) e))),
      )
      | inr e ↦ (
        (λ h t there special. elim (Bool-cases (t == u)) [
          | inl same ↦
              absurd (ground (arith, ap (λ z. is_in z special_categories) ((==_iff t u).0 same)))
          | inr other ↦ ih.0 (ground (arith, e)) t (ground arith) special
        ]),
        (λ h. ground (arith, e, ih.1 (λ t there. h t (ground arith)))),
      )
    ]

age_iff :
    (age : Option ℕ) → (is_nil (age_violations age) ≡ true) ↔ ((a : ℕ) → age ≡ some a → 16 ≤ a)
age_iff none = (λ h a e. absurd (ground arith), λ h. refl)
age_iff (some age) =
    (λ h a e. let same : age ≡ a = cc in ground arith, λ h. let enough = h age refl in ground arith)

-- A consent is accepted exactly when its legal basis is one of the six of article 6; it is explicit, if
-- any of its data types is in one of the eight special categories of article 9; an age that is given is
-- 16 at least; its purpose has ten characters at least between the white space around it; and it has
-- ten data types at most. The consent of a parent is not asked for, so nobody under 16 is accepted.
pub IsLawful-iff :
    (purpose : List ℕ) (types : List String) (basis : String) (explicit : Bool) (age : Option ℕ)
    → ((validate_consent purpose types basis explicit age).0 ≡ true)
      ↔ IsLawful purpose types basis explicit age
unfolding validate_consent
IsLawful-iff purpose types basis explicit age =
    let rules =
      no_violation_iff (not (is_in basis legal_bases)) (has_special types && not explicit)
        (age_violations age) (ltb (length (strip purpose)) 10) (ltb 10 (length types))
        invalid_legal_basis explicit_required unspecific_purpose too_many_types in
    (
      (λ h.
          let (known, special, old, specific, few) = rules.0 h in
          (
            ground arith,
            (special_iff types explicit).0 special,
            (age_iff age).0 old,
            ground arith,
            ground arith,
          )),
      (λ h.
          let (known, special, old, specific, few) = h in
          rules.1 (
            ground arith,
            (special_iff types explicit).1 special,
            (age_iff age).1 old,
            ground arith,
            ground arith,
          )),
    )
