-- ===== src/Consents/History.antt =====
-- The events of a consent as a record of what happened to it.
use Prim.Native.String.{String}
use consentchain.Prelude.{
  ◌≡◌, refl, sym, ap, subst, ◌∙◌, ◌⊎◌, inl, inr, true, false, Option, none, some, List, [], ◌∷◌,
  arith, Dict, lookup, insert, lookup-insert, ◌==◌, ==_iff, string_eq, Bool-cases, if◌then◌else◌,
}
use consentchain.Consents.{
  Status, expired, EventType, consent_granted, consent_revoked, consent_modified, data_access,
  data_deletion, Event, Audit, Consent, Db, is_revoked,
}
use consentchain.Consents.Cases.{is_live}
use consentchain.Consents.Runs.{
  here, next, Reach, status_of, Move, grant, revoke, modify, Effect, rests, moves, lapses,
  step-Effect, before_is,
}

-- The status that the latest event of a consent reports.
unfoldable pub last_status : String → List Event → Option Status
last_status id [] = none
last_status id (e ∷ es) = if e.consent_id == id then some e.new_status else last_status id es

-- A status is the one that was reported last, or the consent expired since, and was not revoked.
abbrev pub Follows : Option Status → Option Status → Type 0
Follows last now =
    (now ≡ last)
    ⊎ ((now ≡ some expired) × ((s : Status) × (last ≡ some s) × (is_revoked s ≡ false)))

-- Each event of the consent is a move from where the events before it left it.
abbrev pub IsChained : String → List Event → Type 0
IsChained id [] = Unit {0}
IsChained id (e ∷ es) =
    ((e.consent_id ≡ id)
      → Follows (last_status id es) e.previous_status
        × ((action : String) × Move e.previous_status e.event_type action e.new_status))
    × IsChained id es

status_of-insert :
    (id k : String) (c : Consent) (cs : Dict String Consent)
    → status_of id (insert k c cs) ≡ (if k == id then some c.status else status_of id cs)
status_of-insert id k c cs = ground (arith, lookup-insert id k c cs)

abbrev pub IsRecorded : Db → Type 0
IsRecorded db =
    (id : String)
    → Follows (last_status id db.events) (status_of id db.consents) × IsChained id db.events

Move-IsRecorded :
    (k id : String) (c : Consent) (e : Event) (before : Option Status) {action : String} (db : Db)
    → e.consent_id ≡ k
    → e.new_status ≡ c.status
    → e.previous_status ≡ before
    → status_of k db.consents ≡ before
    → Move before e.event_type action c.status
    → IsRecorded db
    → Follows (last_status id (e ∷ db.events)) (status_of id (insert k c db.consents))
      × IsChained id (e ∷ db.events)
unfolding last_status
Move-IsRecorded k id c e before {action} db own new old was m v = elim (Bool-cases (k == id)) [
  | inl same ↦
      let here : k ≡ id = (==_iff k id).0 same in
      let found : status_of id db.consents ≡ e.previous_status =
        ap (λ x. status_of x db.consents) (sym here) ∙ was ∙ sym old in
      let m' : Move e.previous_status e.event_type action e.new_status =
        subst (λ x. Move x e.event_type action e.new_status) (sym old)
          (subst (λ x. Move before e.event_type action x) (sym new) m) in
      (
        inl (ground (arith, status_of-insert id k c db.consents, same, ap (λ x. x == id) own)),
        (
          (λ h. (subst (Follows (last_status id db.events)) found (v id).0, (action, m'))),
          (v id).1,
        ),
      )
  | inr other ↦
      let away : (e.consent_id == id) ≡ false = ap (λ x. x == id) own ∙ other in
      (
        rw (status_of-insert id k c db.consents, other, away) (v id).0,
        ((λ h. absurd (ground (arith, ==_iff k id, own))), (v id).1),
      )
]

last_live :
    {last now : Option Status} {s : Status}
    → Follows last now
    → now ≡ some s
    → is_revoked s ≡ false
    → (t : Status) × (last ≡ some t) × (is_revoked t ≡ false)
last_live {s = s} (inl same) e live = (s, sym same ∙ e, live)
last_live (inr (lapsed, before)) e live = before

live_revoked : (s : Status) → is_live s ≡ true → is_revoked s ≡ false
live_revoked s live = ground arith

lapse-IsRecorded :
    (k id : String) (c : Consent) (db : Db)
    → lookup k db.consents ≡ some c
    → is_live c.status ≡ true
    → IsRecorded db
    → Follows
        (last_status id db.events)
        (status_of id (insert k (record c { status = expired }) db.consents))
lapse-IsRecorded k id c db there live v = elim (Bool-cases (k == id)) [
  | inr other ↦
      rw (status_of-insert id k (record c { status = expired }) db.consents, other) (v id).0
  | inl same ↦
      let here : k ≡ id = (==_iff k id).0 same in
      let found : status_of id db.consents ≡ some c.status =
        ap (λ x. status_of x db.consents) (sym here) ∙ before_is k db there in
      inr (
        ground (arith, status_of-insert id k (record c { status = expired }) db.consents),
        last_live (v id).0 found (live_revoked c.status live),
      )
]

Effect-IsRecorded : {db db' : Db} → Effect db db' → IsRecorded db → IsRecorded db'
Effect-IsRecorded (rests ps fs) v id = v id
Effect-IsRecorded (moves {db = db} now k c ty action actor before tx ref was m) v id =
    Move-IsRecorded k id c _ before db refl refl refl was m v
Effect-IsRecorded (lapses {db = db} k c there live) v id =
    (lapse-IsRecorded k id c db there live v, (v id).1)

-- Whatever calls the service took since the database was empty, with whatever outcomes and fresh
-- identifiers: the events of each consent are a chain of moves from no consent, each from the status
-- that the one before reported or from an expiry since, and the consent's status is the last one
-- reported, unless it expired since.
pub history_IsChained : {db : Db} → Reach db → IsRecorded db
unfolding last_status lookup
history_IsChained here id = (inl refl, tt)
history_IsChained (next op r fresh) id =
    Effect-IsRecorded (step-Effect op _ fresh) (history_IsChained r) id

abbrev pub action_of : EventType → String
action_of consent_granted = "CONSENT_CREATED"
action_of consent_revoked = "CONSENT_REVOKED"
action_of consent_modified = "CONSENT_MODIFIED"
action_of data_access = "DATA_ACCESS"
action_of data_deletion = "DATA_DELETION"

abbrev pub event_actions : List Event → List (String × String)
event_actions [] = []
event_actions (e ∷ es) = (e.consent_id, action_of e.event_type) ∷ event_actions es

abbrev pub audit_actions : List Audit → List (String × String)
audit_actions [] = []
audit_actions (a ∷ as') = (a.resource_id, a.action) ∷ audit_actions as'

Move-action :
    {before : Option Status} {ty : EventType} {action : String} {after : Status}
    → Move before ty action after
    → action_of ty ≡ action
Move-action grant = refl
Move-action (revoke live) = refl
Move-action (modify live) = refl

Effect-audited :
    {db db' : Db}
    → Effect db db'
    → event_actions db.events ≡ audit_actions db.audits
    → event_actions db'.events ≡ audit_actions db'.audits
Effect-audited (rests ps fs) same = same
Effect-audited (moves {db = db} now k c ty action actor before tx ref was m) same =
    ground (arith, Move-action m)
Effect-audited (lapses k c there live) same = same

-- Whatever calls the service took since the database was empty, with whatever outcomes and fresh
-- identifiers: the audit logs are, one for one and in the same order, those of the events, about the
-- same consents and with the action of each event.
pub events_audited : {db : Db} → Reach db → event_actions db.events ≡ audit_actions db.audits
events_audited here = refl
events_audited (next op r fresh) = Effect-audited (step-Effect op _ fresh) (events_audited r)
