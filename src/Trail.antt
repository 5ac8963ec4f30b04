-- ===== src/Trail.antt =====
-- The audit trail contract, contracts_v2/audit_trail.py: the struct `AuditEvent`, the global state
-- and every ABI method. Hashes and addresses are only compared, so they are numbers.
pub mod Chain
pub mod Access
mod Tests
use consentchain.Prelude.{
  ℕ, ◌+◌, Bool, true, false, Option, none, some, List, [], ◌∷◌, eqb, Result, ok, err, ◌>>=◌, ◌>>◌,
  require, or_raise, after, BoxStore, add_word,
}

pub record AuditEvent : Type 0 where
  pub event_hash : ℕ
  pub event_type : ℕ
  pub consent_hash : ℕ
  pub actor : ℕ
  pub timestamp : ℕ
  pub previous_status : ℕ
  pub new_status : ℕ
  pub merkle_proof : ℕ

pub record Trail (S : Type 0) : Type 0 where
  pub event_counter : ℕ
  pub merkle_root : ℕ
  pub last_event_hash : ℕ
  pub admin_address : ℕ
  pub registry_app_id : ℕ
  pub boxes : S

pub record Txn : Type 0 where
  pub sender : ℕ
  pub round : ℕ

pub data Error : Type 0 where
  only_admin event_not_found overflow : Error

-- The arguments of `log_event`.
pub record Entry : Type 0 where
  pub event_hash : ℕ
  pub event_type : ℕ
  pub consent_hash : ℕ
  pub actor : ℕ
  pub previous_status : ℕ
  pub new_status : ℕ

module _ (B : BoxStore AuditEvent) where
  -- `__init__`: the hashes are 32 zero bytes, read as the number 0.
  pub init : ℕ → Trail B.Store
  init creator = record {
    event_counter = 0;
    merkle_root = 0;
    last_event_hash = 0;
    admin_address = creator;
    registry_app_id = 0;
    boxes = B.empty;
  }

  pub set_registry : Txn → ℕ → Trail B.Store → Result Error (Trail B.Store × Bool)
  set_registry t registry_app_id s = do
    require (eqb t.sender s.admin_address) only_admin
    ok (record s { registry_app_id = registry_app_id }, true)

  -- The struct has a fixed size, so that a box that exists is written over.
  pub log_event : Txn → Entry → Trail B.Store → Result Error (Trail B.Store × Bool)
  unfolding add_word
  log_event t e s = do
    let event : AuditEvent = record {
      event_hash = e.event_hash;
      event_type = e.event_type;
      consent_hash = e.consent_hash;
      actor = e.actor;
      timestamp = t.round;
      previous_status = e.previous_status;
      new_status = e.new_status;
      merkle_proof = s.last_event_hash;
    }
    counter ← add_word overflow s.event_counter 1
    ok (
      record s {
        boxes = B.put e.event_hash event s.boxes;
        last_event_hash = e.event_hash;
        event_counter = counter;
      },
      true,
    )

  pub batch_log_events : ℕ → ℕ → ℕ → Trail B.Store → Result Error (Trail B.Store × Bool)
  unfolding add_word
  batch_log_events merkle_root event_count last_event_hash s = do
    counter ← add_word overflow s.event_counter event_count
    ok (
      record s {
        merkle_root = merkle_root;
        event_counter = counter;
        last_event_hash = last_event_hash;
      },
      true,
    )

  pub get_event : ℕ → Trail B.Store → Result Error AuditEvent
  get_event event_hash s = or_raise (B.get event_hash s.boxes) event_not_found

  pub get_merkle_root : Trail B.Store → ℕ
  get_merkle_root s = s.merkle_root

  pub get_event_count : Trail B.Store → ℕ
  get_event_count s = s.event_counter

  pub verify_event : ℕ → Trail B.Store → Bool
  verify_event event_hash s = elim (B.get event_hash s.boxes) [ none ↦ false | some _ ↦ true ]
