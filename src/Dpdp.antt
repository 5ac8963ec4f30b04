-- ===== src/Dpdp.antt =====
-- The rules of the Digital Personal Data Protection Act, core/crypto.py, `DPDPComplianceValidator`:
-- which purposes and which durations a consent may have.
pub mod Rules
mod Tests
use Prim.Native.String.{String}
use consentchain.Prelude.{
  ℕ, ℤ, pos, negsuc, Bool, true, false, not, ◌&&◌, ◌||◌, Option, none, some, List, [], ◌∷◌, ◌++◌,
  ltb, if◌then◌else◌, Dict, lookup, ◌==◌, string_eq, is_in,
}

abbrev pub sensitive_data_types : List String
sensitive_data_types = "FINANCIAL_DATA" ∷ "HEALTH_DATA" ∷ "BIOMETRIC_DATA" ∷ "SENSITIVE_DATA" ∷ []

-- `any(dt in SENSITIVE_DATA_TYPES for dt in data_types)`
unfoldable pub has_sensitive : List String → Bool
has_sensitive [] = false
has_sensitive (t ∷ ts) = is_in t sensitive_data_types || has_sensitive ts

-- The texts of the violations.
pub data Violation : Type 0 where
  sensitive_for : String → Violation
  third_party : Violation

abbrev pub is_nil : List Violation → Bool
is_nil [] = true
is_nil (v ∷ vs) = false

unfoldable pub validate_consent_purpose : String → List String → Bool × List Violation
validate_consent_purpose purpose data_types =
    let sensitive : List Violation =
      if has_sensitive data_types && is_in purpose ("MARKETING" ∷ "ANALYTICS" ∷ [])
      then sensitive_for purpose ∷ []
      else [] in
    let shared : List Violation =
      if purpose == "THIRD_PARTY_SHARING" then third_party ∷ [] else [] in
    (is_nil (sensitive ++ shared), sensitive ++ shared)

abbrev pub max_durations : Dict String ℕ
max_durations =
    ("MARKETING", 90)
    ∷ ("ANALYTICS", 180)
    ∷ ("SERVICE_DELIVERY", 365)
    ∷ ("THIRD_PARTY_SHARING", 90)
    ∷ ("RESEARCH", 365)
    ∷ ("COMPLIANCE", 365)
    ∷ ("PAYMENT_PROCESSING", 365)
    ∷ []

abbrev pub max_days_of : String → ℕ
max_days_of purpose = elim (lookup purpose max_durations) [ none ↦ 365 | some n ↦ n ]

pub data Reason : Type 0 where
  too_short : Reason
  exceeds : ℕ → String → Reason

abbrev pub check_days : ℕ → String → Bool × Option Reason
check_days n purpose =
    if ltb n 1
    then (false, some too_short)
    else if ltb (max_days_of purpose) n
    then (false, some (exceeds (max_days_of purpose) purpose))
    else (true, none)

unfoldable pub validate_consent_duration : ℤ → String → Bool × Option Reason
validate_consent_duration (pos n) purpose = check_days n purpose
validate_consent_duration (negsuc n) purpose = (false, some too_short)
