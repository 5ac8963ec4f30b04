-- ===== src/Cache/Keys.antt =====
-- The keys of the cache, api/cache/__init__.py, `CacheKey`.
use Prim.Native.String.{String}
use Prim.Native.Char.{code}
use consentchain.Prelude.{ℕ, Option, none, some, List, [], ◌∷◌, ◌++◌}

abbrev pub Text : Type 0
Text = List ℕ

abbrev pub codes : String → Text
codes String.[] = []
codes (String.◌∷◌ c s) = code c ∷ codes s

abbrev pub consent : Text → Text
consent id = codes "consentchain:consent:" ++ id

abbrev pub fiduciary : Text → Text
fiduciary id = codes "consentchain:fiduciary:" ++ id

abbrev pub consent_verification : Text → Text
consent_verification id = codes "consentchain:verification:" ++ id

abbrev pub compliance_status : Text → Text
compliance_status id = codes "consentchain:compliance:" ++ id

-- `status or 'all'`
abbrev pub or_all : Option Text → Text
or_all none = codes "all"
or_all (some []) = codes "all"
or_all (some (c ∷ cs)) = c ∷ cs

abbrev pub page_of : Text → Text → Text → Option Text → Text
page_of id page limit status =
    id ++ codes ":p" ++ page ++ codes ":l" ++ limit ++ codes ":s" ++ or_all status

abbrev pub fiduciary_consents : Text → Text → Text → Option Text → Text
fiduciary_consents id page limit status =
    codes "consentchain:consent:fiduciary:" ++ page_of id page limit status

-- The second of the two definitions of this name, which replaces the first.
abbrev pub principal_consents : Text → Text → Text → Option Text → Text
principal_consents id page limit status =
    codes "consentchain:consent:principal:" ++ page_of id page limit status
