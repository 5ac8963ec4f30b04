-- ===== src/Registry.antt =====
-- The consent registry contract, contracts_v2/consent_registry.py: the struct `ConsentData`, the
-- contract's global state and every ABI method. Addresses and hashes are only compared, so they
-- are numbers; a purpose is its list of bytes, since its length counts.
pub mod Counters
pub mod Rights
pub mod Lifecycle
mod Tests
use consentchain.Prelude.{
  ℕ, ◌+◌, Bool, true, false, not, ◌&&◌, ◌||◌, Option, none, some, List, [], ◌∷◌, arith, ltb, leb,
  eqb, if◌then◌else◌, length, Result, ok, err, ◌>>=◌, ◌>>◌, require, or_raise, after, BoxStore,
  add_word, sub_word,
}

pub record ConsentData : Type 0 where
  pub principal_address : ℕ
  pub fiduciary_address : ℕ
  pub purpose : List ℕ
  pub data_types_hash : ℕ
  pub status : ℕ
  pub granted_at : ℕ
  pub expires_at : ℕ
  pub revoked_at : ℕ

abbrev pub status_pending : ℕ
status_pending = 0

abbrev pub status_granted : ℕ
status_granted = 1

abbrev pub status_revoked : ℕ
status_revoked = 2

abbrev pub status_expired : ℕ
status_expired = 3

abbrev pub status_modified : ℕ
status_modified = 4

-- A box has the size that it was created with: writing within it keeps the size.
pub record Box : Type 0 where
  pub contents : ConsentData
  pub size : ℕ

-- Bytes of the encoded struct: 130 of fixed part, and the purpose behind its 2-byte length.
abbrev pub encoded_size : ConsentData → ℕ
encoded_size d = 132 + length d.purpose

pub record Registry (S : Type 0) : Type 0 where
  pub total_consents : ℕ
  pub active_consents : ℕ
  pub revoked_consents : ℕ
  pub admin_address : ℕ
  pub boxes : S

-- What a call sees of the chain.
pub record Txn : Type 0 where
  pub sender : ℕ
  pub round : ℕ

-- The messages of the failing assertions, and the traps of the machine.
pub data Error : Type 0 where
  unauthorized not_found only_principal_revokes only_principal_modifies not_active is_revoked
        not_yet_expired :
      Error
  overflow underflow box_length : Error

pub data Call : Type 0 where
  register : ℕ → ℕ → ℕ → List ℕ → ℕ → ℕ → Call
  revoke : ℕ → Call
  modify : ℕ → List ℕ → ℕ → Call
  expire : ℕ → Call

-- An empty purpose or a zero expiry leaves the field as it is.
abbrev pub modified : List ℕ → ℕ → ConsentData → ConsentData
modified new_purpose new_expires_at d = record d {
  purpose = if ltb 0 (length new_purpose) then new_purpose else d.purpose;
  expires_at = if ltb 0 new_expires_at then new_expires_at else d.expires_at;
  status = status_modified;
}

module _ (B : BoxStore Box) where
  -- `__init__`; the creator is the admin.
  pub init : ℕ → Registry B.Store
  init creator = record {
    total_consents = 0;
    active_consents = 0;
    revoked_consents = 0;
    admin_address = creator;
    boxes = B.empty;
  }

  -- Writes a whole box: a box that exists must have the length of what is written.
  box_put : ℕ → ConsentData → B.Store → Result Error B.Store
  box_put k d s = elim (B.get k s) [
    | none ↦ ok (B.put k (record { contents = d; size = encoded_size d }) s)
    | some b ↦
        if eqb (encoded_size d) b.size
        then ok (B.put k (record { contents = d; size = b.size }) s)
        else err box_length
  ]

  -- Writes at offset 0 of a box, which must be long enough.
  box_replace : ℕ → Box → ConsentData → B.Store → Result Error B.Store
  box_replace k b d s =
      if leb (encoded_size d) b.size
      then ok (B.put k (record { contents = d; size = b.size }) s)
      else err box_length

  pub register_consent :
      Txn → ℕ → ℕ → ℕ → List ℕ → ℕ → ℕ → Registry B.Store → Result Error (Registry B.Store × ℕ)
  unfolding box_put add_word
  register_consent t consent_hash principal fiduciary purpose data_types_hash expires_at r = do
    require (eqb t.sender r.admin_address || eqb t.sender principal) unauthorized
    boxes' ←
        box_put consent_hash
          (record {
            principal_address = principal;
            fiduciary_address = fiduciary;
            purpose = purpose;
            data_types_hash = data_types_hash;
            status = status_granted;
            granted_at = t.round;
            expires_at = expires_at;
            revoked_at = 0;
          })
          r.boxes
    total ← add_word overflow r.total_consents 1
    active ← add_word overflow r.active_consents 1
    ok (record r { total_consents = total; active_consents = active; boxes = boxes' }, consent_hash)

  pub revoke_consent : Txn → ℕ → Registry B.Store → Result Error (Registry B.Store × Bool)
  unfolding box_replace add_word sub_word
  revoke_consent t consent_hash r = do
    b ← or_raise (B.get consent_hash r.boxes) not_found
    require (eqb t.sender b.contents.principal_address) only_principal_revokes
    require (eqb b.contents.status status_granted) not_active
    boxes' ←
        box_replace consent_hash b
          (record (b.contents) { status = status_revoked; revoked_at = t.round }) r.boxes
    active ← sub_word underflow r.active_consents 1
    revoked ← add_word overflow r.revoked_consents 1
    ok (record r { active_consents = active; revoked_consents = revoked; boxes = boxes' }, true)

  pub modify_consent :
      Txn → ℕ → List ℕ → ℕ → Registry B.Store → Result Error (Registry B.Store × Bool)
  unfolding box_replace
  modify_consent t consent_hash new_purpose new_expires_at r = do
    b ← or_raise (B.get consent_hash r.boxes) not_found
    require (eqb t.sender b.contents.principal_address) only_principal_modifies
    require (not (eqb b.contents.status status_revoked)) is_revoked
    boxes' ← box_replace consent_hash b (modified new_purpose new_expires_at b.contents) r.boxes
    ok (record r { boxes = boxes' }, true)

  pub expire_consent : Txn → ℕ → Registry B.Store → Result Error (Registry B.Store × Bool)
  unfolding box_replace sub_word
  expire_consent t consent_hash r = do
    b ← or_raise (B.get consent_hash r.boxes) not_found
    require (eqb b.contents.status status_granted) not_active
    require (ltb b.contents.expires_at t.round) not_yet_expired
    boxes' ← box_replace consent_hash b (record (b.contents) { status = status_expired }) r.boxes
    active ← sub_word underflow r.active_consents 1
    ok (record r { active_consents = active; boxes = boxes' }, true)

  -- The early returns of `verify_consent` on a box that is there.
  is_valid : Txn → ConsentData → Bool
  is_valid t d =
      if not (eqb d.status status_granted)
      then false
      else if ltb 0 d.expires_at && ltb d.expires_at t.round
      then false
      else true

  pub verify_consent : Txn → ℕ → Registry B.Store → Bool
  unfolding is_valid
  verify_consent t consent_hash r = elim (B.get consent_hash r.boxes) [
    | none ↦ false
    | some b ↦ is_valid t b.contents
  ]

  pub get_consent : ℕ → Registry B.Store → Result Error ConsentData
  get_consent consent_hash r = do b ← or_raise (B.get consent_hash r.boxes) not_found; ok b.contents

  pub get_stats : Registry B.Store → ℕ × ℕ × ℕ
  get_stats r = (r.total_consents, r.active_consents, r.revoked_consents)

  -- One transaction; one that fails leaves the state alone.
  pub step : Registry B.Store → Txn × Call → Registry B.Store
  step r (t, register h p f u d e) = after r (register_consent t h p f u d e r)
  step r (t, revoke h) = after r (revoke_consent t h r)
  step r (t, modify h u e) = after r (modify_consent t h u e r)
  step r (t, expire h) = after r (expire_consent t h r)

  pub run : Registry B.Store → List (Txn × Call) → Registry B.Store
  run r [] = r
  run r (c ∷ cs) = run (step r c) cs
