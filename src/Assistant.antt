-- ===== src/Assistant.antt =====
-- The analysis of a consent by rules, api/ai_assistant/__init__.py, `AIComplianceAssistant`. Of a
-- suggestion its kind, its severity and the values in it are kept; the texts that are made of them and
-- the warnings are left out. The score is a whole number here; what is taken off never brings it below 0.
pub mod Scores
pub mod Rules
mod Tests
use Prim.Native.String.{String}
use consentchain.Prelude.{
  ℕ, ◌-◌, Bool, true, false, not, ◌&&◌, Option, none, some, List, [], ◌∷◌, ◌++◌, below, ltb, leb,
  eqb, if◌then◌else◌, Dict, lookup, contains, ◌==◌, string_eq, is_in, keep, ℤ, pos, negsuc,
}

pub data Severity : Type 0 where
  info warning critical : Severity

pub data Suggestion : Type 0 where
  non_standard_purpose : Suggestion
  restricted_data_type : String → Suggestion
  recommended_missing : List String → Suggestion
  too_short exceeds_maximum optimal_duration : ℕ → Suggestion
  sensitive_violation sensitive_notice : String → Suggestion
  cross_border_transfer : Suggestion

abbrev pub severity : Suggestion → Severity
severity non_standard_purpose = warning
severity (restricted_data_type t) = critical
severity (recommended_missing ts) = info
severity (too_short n) = warning
severity (exceeds_maximum n) = warning
severity (optimal_duration n) = info
severity (sensitive_violation t) = critical
severity (sensitive_notice t) = warning
severity cross_border_transfer = warning

pub record Days : Type 0 where
  pub min_days : ℕ
  pub recommended_days : ℕ
  pub max_days : ℕ

abbrev pub purpose_durations : Dict String Days
purpose_durations =
    ("MARKETING", record { min_days = 1; recommended_days = 180; max_days = 365 })
    ∷ ("ANALYTICS", record { min_days = 30; recommended_days = 365; max_days = 730 })
    ∷ ("SERVICE_DELIVERY", record { min_days = 30; recommended_days = 730; max_days = 1095 })
    ∷ ("THIRD_PARTY_SHARING", record { min_days = 1; recommended_days = 90; max_days = 365 })
    ∷ ("RESEARCH", record { min_days = 90; recommended_days = 730; max_days = 1825 })
    ∷ ("COMPLIANCE", record { min_days = 365; recommended_days = 2555; max_days = 3650 })
    ∷ ("PAYMENT_PROCESSING", record { min_days = 30; recommended_days = 365; max_days = 730 })
    ∷ []

-- The recommended and the restricted data types of a purpose.
abbrev pub guidelines : Dict String (List String × List String)
guidelines =
    (
      "MARKETING",
      (
        "contact_info" ∷ "personal_info" ∷ [],
        "health_data" ∷ "biometric_data" ∷ "financial_data" ∷ [],
      ),
    )
    ∷ ("SERVICE_DELIVERY", ("personal_info" ∷ "contact_info" ∷ [], "biometric_data" ∷ []))
    ∷ (
      "ANALYTICS",
      ("behavioral_data" ∷ "personal_info" ∷ [], "health_data" ∷ "biometric_data" ∷ []),
    )
    ∷ (
      "THIRD_PARTY_SHARING",
      (
        "personal_info" ∷ "contact_info" ∷ [],
        "health_data" ∷ "biometric_data" ∷ "location_data" ∷ [],
      ),
    )
    ∷ ("RESEARCH", ("personal_info" ∷ "behavioral_data" ∷ [], "biometric_data" ∷ []))
    ∷ ("COMPLIANCE", ("personal_info" ∷ "financial_data" ∷ [], "biometric_data" ∷ []))
    ∷ (
      "PAYMENT_PROCESSING",
      (
        "financial_data" ∷ "personal_info" ∷ [],
        "health_data" ∷ "biometric_data" ∷ "location_data" ∷ [],
      ),
    )
    ∷ []

-- The purposes that a sensitive data type is restricted for.
abbrev pub sensitive_data : Dict String (List String)
sensitive_data =
    ("health_data", "MARKETING" ∷ "THIRD_PARTY_SHARING" ∷ [])
    ∷ ("biometric_data", "MARKETING" ∷ "THIRD_PARTY_SHARING" ∷ "ANALYTICS" ∷ [])
    ∷ ("financial_data", "MARKETING" ∷ [])
    ∷ ("location_data", "MARKETING" ∷ [])
    ∷ []

unfoldable pub validate_purpose : String → Bool × List Suggestion
validate_purpose purpose =
    if contains purpose purpose_durations then (true, []) else (false, non_standard_purpose ∷ [])

abbrev pub guidelines_of : String → List String × List String
guidelines_of purpose = elim (lookup purpose guidelines) [ none ↦ ([], []) | some g ↦ g ]

-- The loop over the data types.
unfoldable pub check_types : List String → List String → Bool × List Suggestion
check_types restricted [] = (true, [])
check_types restricted (t ∷ ts) =
    let rest = check_types restricted ts in
    if is_in t restricted then (false, restricted_data_type t ∷ rest.1) else rest

abbrev pub is_empty : List String → Bool
is_empty [] = true
is_empty (t ∷ ts) = false

unfoldable pub validate_data_types : String → List String → Bool × List Suggestion
validate_data_types purpose [] = (false, [])
validate_data_types purpose (t ∷ ts) =
    let (recommended, restricted) = guidelines_of purpose in
    let checked = check_types restricted (t ∷ ts) in
    let unused = keep (λ r. not (is_in r (t ∷ ts))) recommended in
    (
      checked.0,
      checked.1
          ++ (if not (is_empty unused) && is_empty restricted
              then recommended_missing unused ∷ []
              else []),
    )

abbrev pub is_under : ℤ → ℕ → Bool
is_under (pos n) m = ltb n m
is_under (negsuc n) m = true

abbrev pub is_equal : ℤ → ℕ → Bool
is_equal (pos n) m = eqb n m
is_equal (negsuc n) m = false

unfoldable pub validate_duration : String → ℤ → Bool × List Suggestion
validate_duration purpose days = elim (lookup purpose purpose_durations) [
  | none ↦ (true, [])
  | some g ↦ (
    not (is_under days g.min_days),
    (if is_under days g.min_days then too_short g.min_days ∷ [] else [])
        ++ (if below g.max_days days then exceeds_maximum g.max_days ∷ [] else [])
        ++ (if is_equal days g.recommended_days
            then []
            else optimal_duration g.recommended_days ∷ []),
  )
]

unfoldable pub check_sensitive_data : List String → String → List Suggestion
check_sensitive_data [] purpose = []
check_sensitive_data (t ∷ ts) purpose =
    let rest = check_sensitive_data ts purpose in
    elim (lookup t sensitive_data) [
      | none ↦ rest
      | some restricted_purposes ↦
          (if is_in purpose restricted_purposes then sensitive_violation t ∷ [] else [])
          ++ (sensitive_notice t ∷ rest)
    ]

abbrev pub check_cross_border : Bool → List Suggestion
check_cross_border cross_border = if cross_border then cross_border_transfer ∷ [] else []

abbrev pub points : Severity → ℕ
points critical = 15
points warning = 5
points info = 1

-- The loop over the suggestions.
unfoldable pub take_off : ℕ → List Suggestion → ℕ
take_off score [] = score
take_off score (s ∷ ss) = take_off (score - points (severity s)) ss

unfoldable pub calculate_compliance_score : Bool → Bool → Bool → List Suggestion → ℕ
calculate_compliance_score purpose_valid data_appropriate duration_reasonable suggestions =
    take_off
      (100
        - (if purpose_valid then 0 else 20)
        - (if data_appropriate then 0 else 25)
        - (if duration_reasonable then 0 else 10))
      suggestions

-- The compliance with each section of the act is always answered with true.
pub record ConsentAnalysis : Type 0 where
  pub purpose_valid : Bool
  pub data_types_appropriate : Bool
  pub duration_reasonable : Bool
  pub compliance_score : ℕ
  pub suggestions : List Suggestion

unfoldable pub analyze_consent : String → List String → ℤ → Bool → ConsentAnalysis
analyze_consent purpose data_types duration_days cross_border =
    let p = validate_purpose purpose in
    let d = validate_data_types purpose data_types in
    let t = validate_duration purpose duration_days in
    let suggestions =
      p.1
      ++ d.1
      ++ t.1
      ++ check_sensitive_data data_types purpose
      ++ check_cross_border cross_border in
    record {
      purpose_valid = p.0;
      data_types_appropriate = d.0;
      duration_reasonable = t.0;
      compliance_score = calculate_compliance_score p.0 d.0 t.0 suggestions;
      suggestions = suggestions;
    }
