-- ===== src/Dpdp/Tests.antt =====
-- The rules on a health record.
use Prim.Native.String.{String}
use consentchain.Prelude.{◌≡◌, refl, false, List, [], ◌∷◌, string_eq, is_in}
use consentchain.Dpdp.{has_sensitive, validate_consent_purpose}

abbrev record_types : List String
record_types = "CONTACT_INFO" ∷ "HEALTH_DATA" ∷ []

abbrev marketing : String
marketing = "MARKETING"

refused : (validate_consent_purpose marketing record_types).0 ≡ false
unfolding validate_consent_purpose has_sensitive is_in
refused = refl
