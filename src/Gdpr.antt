-- ===== src/Gdpr.antt =====
-- The rules of api/compliance/gdpr.py, `GDPRConsentValidator`, and the level of a score,
-- `GDPRComplianceChecker`. A purpose is a list of character codes, a score a whole number.
pub mod Rules
mod Tests
use Prim.Native.String.{String}
use consentchain.Prelude.{
  ℕ, ◌*◌, ◌/◌, Bool, true, false, not, ◌&&◌, ◌||◌, Option, none, some, List, [], ◌∷◌, ◌++◌, ltb,
  leb, eqb, if◌then◌else◌, length, reverse, Dict, lookup, ◌==◌, string_eq, nat_eq, is_in, or_else,
}

-- `GDPRLegalBasis` and the retention of each, in days.
abbrev pub retention_periods : Dict String ℕ
retention_periods =
    ("consent", 365)
    ∷ ("contract", 730)
    ∷ ("legal_obligation", 2555)
    ∷ ("vital_interests", 365)
    ∷ ("public_task", 730)
    ∷ ("legitimate_interests", 365)
    ∷ []

abbrev pub legal_bases : List String
legal_bases =
    "consent" ∷ "contract" ∷ "legal_obligation" ∷ "vital_interests" ∷ "public_task"
    ∷ "legitimate_interests" ∷ []

abbrev pub special_categories : List String
special_categories =
    "racial_ethnic" ∷ "political" ∷ "religious" ∷ "trade_union" ∷ "genetic" ∷ "biometric" ∷ "health"
    ∷ "sexual_orientation" ∷ []

pub data Violation : Type 0 where
  invalid_legal_basis explicit_required : Violation
  under_13 under_16 : Violation
  unspecific_purpose too_many_types : Violation

-- The white space that `str.strip` takes off.
abbrev pub is_space : ℕ → Bool
is_space c =
    leb 9 c && leb c 13
    || leb 28 c && leb c 32
    || is_in c (133 ∷ 160 ∷ 5760 ∷ 8232 ∷ 8233 ∷ 8239 ∷ 8287 ∷ 12288 ∷ [])
    || leb 8192 c && leb c 8202

unfoldable pub drop_spaces : List ℕ → List ℕ
drop_spaces [] = []
drop_spaces (c ∷ cs) = if is_space c then drop_spaces cs else c ∷ cs

abbrev pub strip : List ℕ → List ℕ
strip text = reverse (drop_spaces (reverse (drop_spaces text)))

unfoldable pub has_special : List String → Bool
has_special [] = false
has_special (t ∷ ts) = is_in t special_categories || has_special ts

abbrev pub when : Bool → Violation → List Violation
when b v = if b then v ∷ [] else []

-- An age that is given is not negative.
abbrev pub age_violations : Option ℕ → List Violation
age_violations none = []
age_violations (some age) =
    if ltb age 13 then under_13 ∷ [] else if ltb age 16 then under_16 ∷ [] else []

abbrev pub is_nil : List Violation → Bool
is_nil [] = true
is_nil (v ∷ vs) = false

unfoldable pub validate_consent :
    List ℕ → List String → String → Bool → Option ℕ → Bool × List Violation
validate_consent purpose data_types legal_basis explicit age =
    let violations =
      when (not (is_in legal_basis legal_bases)) invalid_legal_basis
      ++ when (has_special data_types && not explicit) explicit_required
      ++ age_violations age
      ++ when (ltb (length (strip purpose)) 10) unspecific_purpose
      ++ when (ltb 10 (length data_types)) too_many_types in
    (is_nil violations, violations)

unfoldable pub get_retention_period : String → ℕ
get_retention_period legal_basis = or_else (lookup legal_basis retention_periods) 365

pub data Level : Type 0 where
  excellent good partial non_compliant : Level

unfoldable pub get_compliance_level : ℕ → Level
get_compliance_level score =
    if leb 90 score
    then excellent
    else if leb 70 score
    then good
    else if leb 50 score
    then partial
    else non_compliant
