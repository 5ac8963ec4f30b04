-- ===== src/Isolation/Borders.antt =====
-- What a repository of one fiduciary can reach.
use Prim.Native.String.{String}
use consentchain.Prelude.{
  ◌≡◌, refl, subst, ap, ◌∙◌, inl, inr, true, false, not, Bool, Option, none, some, List, [], ◌∷◌,
  arith, Dict, lookup, lookup-insert, lookup-erase, ◌==◌, ==_iff, string_eq, keep, Bool-cases,
  Option-cases,
}
use consentchain.Isolation.{
  Row, Table, tenant_field, has_value, is_within, get, passes, list, create, set_values, update,
  delete,
}

-- Calls of the repository; new rows have new identifiers.
pub data Call : Type 0 where
  creates : String → Row → Call
  updates : String → Row → Call
  deletes : String → Call

unfoldable pub step : List String → String → Call → Table → Table
step columns t (creates id given) table = (create (some t) id given table).0
step columns t (updates id given) table = (update columns (some t) id given table).0
step columns t (deletes id) table = (delete (some t) id table).0

abbrev pub IsFresh : Call → Table → Type 0
IsFresh (creates id given) table = lookup id table ≡ none
IsFresh c table = Unit {0}

-- A row of another fiduciary, or of none.
abbrev pub IsForeign : String → Row → Type 0
IsForeign t row = has_value "fiduciary_id" t row ≡ false

foreign_hidden :
    (t id : String) (table : Table) {row : Row}
    → lookup id table ≡ some row
    → IsForeign t row
    → get (some t) tenant_field id table ≡ none
unfolding get
foreign_hidden t id table there foreign = ground arith

got_is_other :
    (t id k : String) (table : Table) {row got : Row}
    → lookup id table ≡ some row
    → IsForeign t row
    → get (some t) tenant_field k table ≡ some got
    → (k == id) ≡ false
got_is_other t id k table {row} {got} there foreign found = elim (Bool-cases (k == id)) [
  | inr other ↦ other
  | inl same ↦
      let hidden : get (some t) tenant_field k table ≡ none =
        foreign_hidden t k table (ap (λ z. lookup z table) ((==_iff k id).0 same) ∙ there)
          foreign in
      absurd (ground arith)
]

step_keeps :
    (columns : List String) (t id : String) (c : Call) (table : Table) {row : Row}
    → IsFresh c table
    → lookup id table ≡ some row
    → IsForeign t row
    → lookup id (step columns t c table) ≡ some row
unfolding step create update delete
step_keeps columns t id (creates new given) table fresh there foreign =
    let other : (new == id) ≡ false = ground (arith, ==_iff new id, ap (λ z. lookup z table)) in
    lookup-insert id new _ table ∙ rw other there
step_keeps columns t id (updates k given) table fresh there foreign =
    elim (Option-cases (get (some t) tenant_field k table)) [
      | inl e ↦ rw (step, update, e) there
      | inr (got, e) ↦
          rw (step, update, e)
            (lookup-insert id k (set_values columns given got) table
              ∙ rw (got_is_other t id k table there foreign e) there)
    ]
step_keeps columns t id (deletes k) table fresh there foreign =
    elim (Option-cases (get (some t) tenant_field k table)) [
      | inl e ↦ rw (step, delete, e) there
      | inr (got, e) ↦
          rw (step, delete, e)
            (lookup-erase id k table ∙ rw (got_is_other t id k table there foreign e) there)
    ]

-- Calls one after another, each with a fresh identifier where it creates a row.
pub data Calls (columns : List String) (t : String) : Table → Table → Type 0 where
  here : {table : Table} → Calls columns t table table
  next :
      {table table' : Table} (c : Call)
      → Calls columns t table table'
      → IsFresh c table'
      → Calls columns t table (step columns t c table')

Calls-keep :
    (columns : List String) (t id : String) {table table' : Table} {row : Row}
    → Calls columns t table table'
    → lookup id table ≡ some row
    → IsForeign t row
    → lookup id table' ≡ some row
Calls-keep columns t id here there foreign = there
Calls-keep columns t id (next c cs fresh) there foreign =
    step_keeps columns t id c _ fresh (Calls-keep columns t id cs there foreign) foreign

found_own :
    (t field k : String) (table : Table) (found : Row)
    → get (some t) field k table ≡ some found
    → has_value field t found ≡ true
unfolding get
found_own t field k table found h = elim (Option-cases (lookup k table)) [
  | inl e ↦ absurd (ground arith)
  | inr (row, e) ↦ elim (Bool-cases (has_value field t row)) [
    | inl own ↦
        let same : row ≡ found = ground arith in subst (λ r. has_value field t r ≡ true) same own
    | inr other ↦ absurd (ground arith)
  ]
]

none_bad :
    {A : Type 0} (bad pass good : A → Bool)
    → ((x : A) → good x ≡ true → bad x ≡ false)
    → (xs : List A) → keep bad (keep pass (keep good xs)) ≡ []
none_bad bad pass good law [] = refl
none_bad bad pass good law (x ∷ xs) =
    let ih = none_bad bad pass good law xs in
    elim (Bool-cases (good x)) [
      | inr e ↦ rw e ih
      | inl e ↦ elim (Bool-cases (pass x)) [
        | inl e' ↦ rw (e, e', law x e) ih
        | inr e' ↦ rw (e, e') ih
      ]
    ]

within_own :
    (t field : String) (row : Row)
    → is_within (some t) field row ≡ true
    → not (has_value field t row) ≡ false
within_own t field row h = ground arith

-- Whatever is created, updated and deleted by a repository whose fiduciary is set, with fresh
-- identifiers for new rows: a row of another fiduciary stays as it is, and is not found by its
-- identifier, where the caller names no other column for the filter; a row that is found, and every row
-- of a listing with any filters, has this fiduciary in the column that the caller names.
pub foreign_rows_stay :
    (columns : List String) (t id field : String) (filters : Dict String (Option String))
    {table table' : Table} {row : Row}
    → Calls columns t table table'
    → lookup id table ≡ some row
    → IsForeign t row
    → (lookup id table' ≡ some row)
      × (get (some t) tenant_field id table' ≡ none)
      × (keep
            (λ entry. not (has_value field t entry.1))
            (list columns (some t) field filters table')
          ≡ [])
      × ((k : String) (found : Row)
          → get (some t) field k table' ≡ some found
          → has_value field t found ≡ true)
unfolding list
foreign_rows_stay columns t id field filters {table' = table'} cs there foreign =
    let kept = Calls-keep columns t id cs there foreign in
    (
      kept,
      foreign_hidden t id table' kept foreign,
      none_bad (λ entry. not (has_value field t entry.1)) (λ entry. passes columns filters entry.1)
          (λ entry. is_within (some t) field entry.1) (λ entry h. within_own t field entry.1 h)
          table',
      λ k found h. found_own t field k table' found h,
    )
