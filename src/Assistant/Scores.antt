-- ===== src/Assistant/Scores.antt =====
-- The score of an analysis, from what the analysis holds.
use Prim.Native.String.{String}
use consentchain.Prelude.{
  ℕ, ◌+◌, ◌-◌, ◌*◌, ◌≡◌, ◌∙◌, Bool, true, false, List, [], ◌∷◌, arith, length, keep, if◌then◌else◌,
  ℤ,
}
use consentchain.Assistant.{
  Severity, info, warning, critical, Suggestion, severity, points, take_off,
  calculate_compliance_score, analyze_consent,
}

abbrev is_critical : Severity → Bool
is_critical critical = true
is_critical s = false

abbrev is_warning : Severity → Bool
is_warning warning = true
is_warning s = false

abbrev is_info : Severity → Bool
is_info info = true
is_info s = false

-- How many suggestions have a severity.
abbrev pub criticals : List Suggestion → ℕ
criticals ss = length (keep (λ s. is_critical (severity s)) ss)

abbrev pub warnings : List Suggestion → ℕ
warnings ss = length (keep (λ s. is_warning (severity s)) ss)

abbrev pub infos : List Suggestion → ℕ
infos ss = length (keep (λ s. is_info (severity s)) ss)

abbrev pub penalty : List Suggestion → ℕ
penalty ss = 15 * criticals ss + 5 * warnings ss + infos ss

penalty-cons :
    (s : Suggestion) (ss : List Suggestion) → penalty (s ∷ ss) ≡ points (severity s) + penalty ss
penalty-cons s ss = ground arith

take_off_lem : (score : ℕ) (ss : List Suggestion) → take_off score ss ≡ score - penalty ss
unfolding take_off
take_off_lem score [] = omega arith
take_off_lem score (s ∷ ss) =
    take_off_lem (score - points (severity s)) ss ∙ omega (arith, penalty-cons s ss)

-- The score of an analysis is 100, less 20 for a purpose that is not standard, 25 for data types that
-- are not appropriate, 10 for a duration that is not reasonable, 15 for each critical suggestion, 5 for
-- each warning and 1 for each other one, and 0 where that is more than 100.
pub score_is_sum :
    (purpose : String) (data_types : List String) (days : ℤ) (cross_border : Bool)
    → let a = analyze_consent purpose data_types days cross_border in
      a.compliance_score
      ≡ 100
        - ((if a.purpose_valid then 0 else 20)
            + (if a.data_types_appropriate then 0 else 25)
            + (if a.duration_reasonable then 0 else 10)
            + penalty a.suggestions)
unfolding analyze_consent calculate_compliance_score
score_is_sum purpose data_types days cross_border =
    let a = analyze_consent purpose data_types days cross_border in
    take_off_lem _ a.suggestions ∙ omega arith
