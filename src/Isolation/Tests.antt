-- ===== src/Isolation/Tests.antt =====
-- Two fiduciaries in one table.
use Prim.Native.String.{String}
use consentchain.Prelude.{◌≡◌, refl, true, not, none, some, List, [], ◌∷◌, lookup, string_eq, keep}
use consentchain.Isolation.{Row, Table, has_value, get, list, create}
use consentchain.Isolation.Borders.{here, next, updates, deletes, step, foreign_rows_stay}

abbrev columns : List String
columns = "fiduciary_id" ∷ "purpose" ∷ []

abbrev theirs : Row
theirs = ("fiduciary_id", "f2") ∷ ("purpose", "RESEARCH") ∷ []

abbrev table : Table
table = ("r2", theirs) ∷ []

abbrev change : Row
change = ("purpose", "MARKETING") ∷ []

abbrev after : Table
after = step columns "f1" (deletes "r2") (step columns "f1" (updates "r2" change) table)

abbrev own : String
own = "f1"

foreign_rows_stay_example :
    (lookup "r2" after ≡ some theirs)
    × (get (some own) "fiduciary_id" "r2" after ≡ none)
    × (keep
          (λ entry. not (has_value "purpose" own entry.1))
          (list columns (some own) "purpose" [] after)
        ≡ [])
    × ((k : String) (found : Row)
        → get (some own) "purpose" k after ≡ some found
        → has_value "purpose" own found ≡ true)
unfolding lookup
foreign_rows_stay_example =
    foreign_rows_stay columns own "r2" "purpose" []
      (next (deletes "r2") (next (updates "r2" change) here tt) tt) refl refl

-- A row that names its fiduciary is created for that one, whoever creates it.
forged : (create (some own) "r3" theirs table).1 ≡ theirs
unfolding create lookup
forged = refl
