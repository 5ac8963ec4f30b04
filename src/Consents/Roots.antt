-- ===== src/Consents/Roots.antt =====
-- The Merkle roots of events, api/services.py, `AuditService`. SHA-256, and the text
-- `id:type:created_at` that is made of an event, are parameters; the answer of the chain's client is an
-- argument.
use Prim.Native.String.{String}
use consentchain.Prelude.{
  ℕ, Bool, false, ◌||◌, Option, none, some, List, [], ◌∷◌, map, length, if◌then◌else◌, truthy, ◌==◌,
  string_eq, list_eq, nat_eq, Result, ok, err, ◌>>=◌, ◌>>◌, or_raise, require, not,
}
use consentchain.Merkle.{Text, build_tree, hash_leaves, root}
use consentchain.Consents.{Event, Audit, Error, index_error, chain_error, integrity_error}

unfoldable pub find_event : String → List Event → Option Event
find_event id [] = none
find_event id (e ∷ es) = if e.id == id then some e else find_event id es

-- The loop: identifiers of no event are passed over.
unfoldable pub found : List String → List Event → List Event
found [] es = []
found (id ∷ ids) es =
    let rest = found ids es in elim (find_event id es) [ none ↦ rest | some e ↦ e ∷ rest ]

pub record RootRecord : Type 0 where
  pub root_hash : Text
  pub event_count : ℕ
  pub first_event_id : Option String
  pub last_event_id : Option String
  pub on_chain_tx_id : String

abbrev pub first_of : List String → Option String
first_of [] = none
first_of (id ∷ ids) = some id

abbrev pub last_of : List String → Option String
last_of [] = none
last_of (id ∷ []) = some id
last_of (id ∷ j ∷ ids) = last_of (j ∷ ids)

-- The roots are unique.
unfoldable pub has_root : Text → List RootRecord → Bool
has_root hash [] = false
has_root hash (r ∷ rs) = r.root_hash == hash || has_root hash rs

-- `merkle_tree.root` of the tree of Merkle, whose error is an index error.
abbrev pub root_of : Result consentchain.Merkle.Error Text → Result Error Text
root_of (err x) = err index_error
root_of (ok r) = ok r

module _ (sha256 : Text → Text) (line : Event → Text) where
  abbrev pub leaf_of : Event → Text
  leaf_of e = sha256 (line e)

  unfoldable pub generate_merkle_root :
      List String
      → Option String
      → List Event
      → List RootRecord
      → Result Error (List RootRecord × (Text × String))
  generate_merkle_root ids tx events roots = do
    let leaves = map leaf_of (found ids events)
    r ← root_of (root (build_tree sha256 (hash_leaves sha256 leaves)))
    tx_id ← or_raise tx chain_error
    require (not (has_root r roots)) integrity_error
    ok (
      record {
        root_hash = r;
        event_count = length (found ids events);
        first_event_id = first_of ids;
        last_event_id = last_of ids;
        on_chain_tx_id = tx_id;
      }
          ∷ roots,
      (r, tx_id),
    )

pub data Integrity : Type 0 where
  log_not_found : Integrity
  on_chain : String → Integrity
  in_database : Integrity

-- Valid is any answer but the first; neither the chain nor a root is looked at.
unfoldable pub verify_audit_integrity : String → List Audit → Integrity
verify_audit_integrity id [] = log_not_found
verify_audit_integrity id (a ∷ as') =
    if a.id == id
    then elim (truthy a.on_chain_reference) [ none ↦ in_database | some ref ↦ on_chain ref ]
    else verify_audit_integrity id as'
