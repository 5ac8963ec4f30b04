-- ===== src/Assistant/Tests.antt =====
-- A consent for marketing.
use Prim.Native.String.{String}
use consentchain.Prelude.{◌≡◌, ◌↔◌, true, List, [], ◌∷◌, string_eq, pos}
use consentchain.Assistant.{analyze_consent, ConsentAnalysis}
use consentchain.Assistant.Rules.{IsStandard, IsAppropriate, IsLongEnough, analysis_iff}

abbrev types : List String
types = "health_data" ∷ []

abbrev analysis : ConsentAnalysis
analysis = analyze_consent "MARKETING" types (pos 400) true

analysis_iff_example :
    ((analysis.purpose_valid ≡ true) ↔ IsStandard "MARKETING")
    × ((analysis.data_types_appropriate ≡ true) ↔ IsAppropriate "MARKETING" types)
    × ((analysis.duration_reasonable ≡ true) ↔ IsLongEnough "MARKETING" (pos 400))
analysis_iff_example = analysis_iff "MARKETING" types (pos 400) true
