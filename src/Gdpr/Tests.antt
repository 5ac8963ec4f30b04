-- ===== src/Gdpr/Tests.antt =====
-- A consent for health data, from somebody who is 20.
use Prim.Native.String.{String}
use consentchain.Prelude.{ℕ, ◌≡◌, ◌↔◌, refl, true, some, List, [], ◌∷◌, length, is_in}
use consentchain.Gdpr.{validate_consent, strip, drop_spaces, get_compliance_level, good}
use consentchain.Gdpr.Rules.{IsLawful, IsLawful-iff}

abbrev purpose : List ℕ
purpose = b' ' ∷ b'c' ∷ b'a' ∷ b'r' ∷ b'e' ∷ b' ' ∷ b'p' ∷ b'l' ∷ b'a' ∷ b'n' ∷ b's' ∷ b' ' ∷ []

abbrev types : List String
types = "health" ∷ []

-- The white space around does not count.
stripped : length (strip purpose) ≡ 10
unfolding drop_spaces is_in
stripped = refl

IsLawful-iff_example :
    ((validate_consent purpose types "consent" true (some 20)).0 ≡ true)
    ↔ IsLawful purpose types "consent" true (some 20)
IsLawful-iff_example = IsLawful-iff purpose types "consent" true (some 20)

-- The score of seven checks in ten.
level_of_70 : get_compliance_level 70 ≡ good
unfolding get_compliance_level
level_of_70 = refl
