-- ===== src/Trail/Tests.antt =====
-- The audit trail at concrete states, with the boxes in a dictionary.
use consentchain.Prelude.{ℕ, ◌≡◌, List, [], ◌∷◌, arith, ok, dict_boxes, nat_eq}
use consentchain.Trail.{AuditEvent, Txn, Entry, init, get_event_count}
use consentchain.Trail.Chain.{trail_of, log_all, walk, walk_recovers}

abbrev at : ℕ → ℕ → Txn
at who round = record { sender = who; round = round }

abbrev entry : ℕ → ℕ → Entry
entry hash kind = record {
  event_hash = hash;
  event_type = kind;
  consent_hash = 70;
  actor = 5;
  previous_status = 0;
  new_status = 1;
}

abbrev calls : List (Txn × Entry)
calls = (at 5 10, entry 901 1) ∷ (at 5 12, entry 902 2) ∷ (at 8 15, entry 903 5) ∷ []

walk_recovers_example :
    let B = dict_boxes AuditEvent in
    let s = log_all B calls (init B 1) in
    (walk B 3 s.last_event_hash s ≡ ok (trail_of 0 calls [])) × (get_event_count B s ≡ 3)
walk_recovers_example = walk_recovers (dict_boxes AuditEvent) 1 calls (omega arith) (omega arith)
