-- ===== src/Assistant/Rules.antt =====
-- What the verdicts of an analysis mean, and where they differ from the compliance validator.
use Prim.Native.String.{String}
use consentchain.Prelude.{
  ℕ, ◌≡◌, ◌≢◌, ◌↔◌, ◌<◌, ◌≤◌, ◌∙◌, sym, Dict, Option, none, negsuc, refl, ap, Bool, true, false,
  not, some, List, [], ◌∷◌, arith, lookup, contains, ◌==◌, ==_iff, ==-self, string_eq, is_in, ℤ,
  pos, Bool-cases, Option-cases, inl, inr,
}
use consentchain.Dpdp.{validate_consent_duration}
use consentchain.Assistant.{
  Days, purpose_durations, guidelines, guidelines_of, validate_purpose, check_types,
  validate_data_types, is_under, validate_duration, analyze_consent,
}

-- The standard purposes with the days that each needs at least.
abbrev least_days : Dict String ℕ
least_days =
    ("MARKETING", 1)
    ∷ ("ANALYTICS", 30)
    ∷ ("SERVICE_DELIVERY", 30)
    ∷ ("THIRD_PARTY_SHARING", 1)
    ∷ ("RESEARCH", 90)
    ∷ ("COMPLIANCE", 365)
    ∷ ("PAYMENT_PROCESSING", 30)
    ∷ []

-- The data types that may not be used for a purpose.
abbrev forbidden : Dict String (List String)
forbidden =
    ("MARKETING", "health_data" ∷ "biometric_data" ∷ "financial_data" ∷ [])
    ∷ ("SERVICE_DELIVERY", "biometric_data" ∷ [])
    ∷ ("ANALYTICS", "health_data" ∷ "biometric_data" ∷ [])
    ∷ ("THIRD_PARTY_SHARING", "health_data" ∷ "biometric_data" ∷ "location_data" ∷ [])
    ∷ ("RESEARCH", "biometric_data" ∷ [])
    ∷ ("COMPLIANCE", "biometric_data" ∷ [])
    ∷ ("PAYMENT_PROCESSING", "health_data" ∷ "biometric_data" ∷ "location_data" ∷ [])
    ∷ []

-- There is a data type, and each of them may be used for the purpose.
abbrev pub IsAppropriate : String → List String → Type 0
IsAppropriate purpose types =
    (types ≢ [])
    × ((t : String) (not_for : List String)
        → is_in t types ≡ true
        → lookup purpose forbidden ≡ some not_for
        → is_in t not_for ≡ false)

-- No maximum is asked for.
abbrev pub IsLongEnough : String → ℤ → Type 0
IsLongEnough purpose days =
    (m : ℕ) → lookup purpose least_days ≡ some m → (n : ℕ) × (days ≡ pos n) × (m ≤ n)

abbrev pub IsStandard : String → Type 0
IsStandard purpose = (m : ℕ) × (lookup purpose least_days ≡ some m)

abbrev least_of : Option Days → Option ℕ
least_of none = none
least_of (some g) = some g.min_days

least_agrees :
    (purpose : String) → lookup purpose least_days ≡ least_of (lookup purpose purpose_durations)
unfolding lookup
least_agrees purpose = ground arith

abbrev restricted_of : Option (List String × List String) → Option (List String)
restricted_of none = none
restricted_of (some g) = some g.1

forbidden_agrees :
    (purpose : String) → lookup purpose forbidden ≡ restricted_of (lookup purpose guidelines)
unfolding lookup
forbidden_agrees purpose = ground arith

under_iff : (days : ℤ) (m : ℕ) → (is_under days m ≡ false) ↔ ((n : ℕ) × (days ≡ pos n) × (m ≤ n))
under_iff (pos k) m =
    (λ h. (k, refl, ground arith), λ (n, e, h). let same : k ≡ n = cc in ground arith)
under_iff (negsuc k) m = (λ h. absurd (ground arith), λ (n, e, h). absurd cc)

check_types_iff :
    (restricted ts : List String)
    → ((check_types restricted ts).0 ≡ true)
      ↔ ((t : String) → is_in t ts ≡ true → is_in t restricted ≡ false)
unfolding check_types is_in
check_types_iff restricted [] = (λ h t there. absurd (ground arith), λ h. refl)
check_types_iff restricted (t ∷ ts) =
    let ih = check_types_iff restricted ts in
    elim (Bool-cases (is_in t restricted)) [
      | inl e ↦ (
        (λ h. absurd (ground arith)),
        (λ h. absurd (ground (arith, h t (ground (arith, ==-self t))))),
      )
      | inr e ↦ (
        (λ h u there. elim (Bool-cases (u == t)) [
          | inl same ↦ ap (λ z. is_in z restricted) ((==_iff u t).0 same) ∙ e
          | inr other ↦ ih.0 (ground arith) u (ground arith)
        ]),
        (λ h. rw e (ih.1 (λ u there. h u (ground arith)))),
      )
    ]

given-guidelines :
    (purpose : String) (g : List String × List String)
    → lookup purpose guidelines ≡ some g
    → (guidelines_of purpose).1 ≡ g.1
given-guidelines purpose g e = rw (guidelines_of, e) refl

missing-guidelines :
    (purpose : String) → lookup purpose guidelines ≡ none → (guidelines_of purpose).1 ≡ []
missing-guidelines purpose e = rw (guidelines_of, e) refl

-- What the guidelines of the code restrict is what is forbidden.
guidelines-forbidden :
    (purpose : String) (xs : List String)
    → lookup purpose forbidden ≡ some xs
    → (guidelines_of purpose).1 ≡ xs
guidelines-forbidden purpose xs e =
    let agree = forbidden_agrees purpose in
    elim (Option-cases (lookup purpose guidelines)) [
      | inl none_there ↦ absurd (cc (agree, e, ap restricted_of none_there))
      | inr (g, there) ↦
          let same : some g.1 ≡ some xs = sym (ap restricted_of there) ∙ sym agree ∙ e in
          given-guidelines purpose g there ∙ cc
    ]

allowed-guidelines :
    (purpose t : String)
    → ((xs : List String) → lookup purpose forbidden ≡ some xs → is_in t xs ≡ false)
    → is_in t (guidelines_of purpose).1 ≡ false
unfolding is_in
allowed-guidelines purpose t h = elim (Option-cases (lookup purpose guidelines)) [
  | inl e ↦ ap (is_in t) (missing-guidelines purpose e)
  | inr (g, e) ↦
      ap (is_in t) (given-guidelines purpose g e)
      ∙ h g.1 (forbidden_agrees purpose ∙ ap restricted_of e)
]

IsAppropriate-iff :
    (purpose : String) (types : List String)
    → ((validate_data_types purpose types).0 ≡ true) ↔ IsAppropriate purpose types
unfolding validate_data_types
IsAppropriate-iff purpose [] = (λ h. absurd (ground arith), λ h. absurd (h.0 refl))
IsAppropriate-iff purpose (t ∷ ts) =
    let types = check_types_iff (guidelines_of purpose).1 (t ∷ ts) in
    (
      λ h. (
        λ e. ground arith,
        λ u xs there e. ap (is_in u) (sym (guidelines-forbidden purpose xs e)) ∙ types.0 h u there,
      ),
      λ h. types.1 (λ u there. allowed-guidelines purpose u (λ xs. h.1 u xs there)),
    )

known-validate_duration :
    (purpose : String) (days : ℤ) (g : Days)
    → lookup purpose purpose_durations ≡ some g
    → (validate_duration purpose days).0 ≡ not (is_under days g.min_days)
unfolding validate_duration
known-validate_duration purpose days g e = rw (validate_duration, e) refl

durations-least :
    (purpose : String) (g : Days)
    → lookup purpose purpose_durations ≡ some g
    → lookup purpose least_days ≡ some g.min_days
durations-least purpose g e = least_agrees purpose ∙ ap least_of e

least-durations :
    (purpose : String) (m : ℕ)
    → lookup purpose least_days ≡ some m
    → (g : Days) × (lookup purpose purpose_durations ≡ some g) × (g.min_days ≡ m)
least-durations purpose m e = elim (Option-cases (lookup purpose purpose_durations)) [
  | inl e' ↦ absurd (cc (least_agrees purpose, e, ap least_of e'))
  | inr (g, e') ↦
      let same : some g.min_days ≡ some m = sym (durations-least purpose g e') ∙ e in (g, e', cc)
]

IsLongEnough-iff :
    (purpose : String) (days : ℤ)
    → ((validate_duration purpose days).0 ≡ true) ↔ IsLongEnough purpose days
unfolding validate_duration
IsLongEnough-iff purpose days = (
  λ h m e.
      let (g, there, same) = least-durations purpose m e in
      let min = known-validate_duration purpose days g there in
      (under_iff days m).0 (ap (is_under days) (sym same) ∙ ground arith),
  λ h. elim (Option-cases (lookup purpose purpose_durations)) [
    | inl e ↦ rw (validate_duration, e) refl
    | inr (g, e) ↦
        rw
          (
            known-validate_duration purpose days g e,
            (under_iff days g.min_days).1 (h g.min_days (durations-least purpose g e)),
          )
          refl
  ],
)

-- An analysis finds the purpose valid exactly when it is one of the seven standard purposes; the data
-- types appropriate exactly when there are some, and none that is forbidden for the purpose; and the
-- duration reasonable exactly when it is not below the days that a standard purpose needs at least,
-- however long it is.
pub analysis_iff :
    (purpose : String) (types : List String) (days : ℤ) (cross_border : Bool)
    → let a = analyze_consent purpose types days cross_border in
      ((a.purpose_valid ≡ true) ↔ IsStandard purpose)
      × ((a.data_types_appropriate ≡ true) ↔ IsAppropriate purpose types)
      × ((a.duration_reasonable ≡ true) ↔ IsLongEnough purpose days)
unfolding analyze_consent validate_purpose
analysis_iff purpose types days cross_border = (
  (
    λ h. elim (Option-cases (lookup purpose purpose_durations)) [
      | inl e ↦ absurd (ground arith)
      | inr (g, e) ↦ (g.min_days, durations-least purpose g e)
    ],
    λ h. let (g, there, same) = least-durations purpose h.0 h.1 in rw (contains, there) refl,
  ),
  IsAppropriate-iff purpose types,
  IsLongEnough-iff purpose days,
)

-- Any number of days above 90 is a reasonable duration for marketing, whatever the data types, and yet the
-- compliance validator refuses it.
marketing_disagrees :
    (n : ℕ) (types : List String) (cross_border : Bool)
    → 90 < n
    → ((analyze_consent "MARKETING" types (pos n) cross_border).duration_reasonable ≡ true)
      × ((validate_consent_duration (pos n) "MARKETING").0 ≡ false)
unfolding analyze_consent validate_duration validate_consent_duration lookup
marketing_disagrees n types cross_border long = (ground arith, ground arith)
