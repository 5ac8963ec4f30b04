-- ===== src/Trail/Chain.antt =====
-- The events that were logged one by one form a chain: each holds the hash of the one before it.
use mathlib.Core.Path.{subst}
use consentchain.Prelude.{
  ℕ, zero, suc, ◌+◌, ◌<◌, ◌≡◌, ◌≢◌, refl, some, List, [], ◌∷◌, arith, ok, after, BoxStore, word,
  length, lt→ltb, Result, ◌>>=◌,
}
use consentchain.Trail.{
  AuditEvent, Trail, Txn, Entry, Error, init, log_event, get_event, get_event_count,
}

-- The hash is none of the list.
abbrev pub Fresh : ℕ → List (Txn × Entry) → Type 0
Fresh h [] = Unit {0}
Fresh h ((_, e) ∷ es) = (h ≢ e.event_hash) × Fresh h es

abbrev pub AllFresh : List (Txn × Entry) → Type 0
AllFresh [] = Unit {0}
AllFresh ((_, e) ∷ es) = Fresh e.event_hash es × AllFresh es

module _ (B : BoxStore AuditEvent) where
  -- The calls in order; one that fails leaves the state alone.
  pub log_all : List (Txn × Entry) → Trail B.Store → Trail B.Store
  log_all [] s = s
  log_all ((t, e) ∷ es) s = log_all es (after s (log_event B t e s))

  -- A reader of the trail: `n` events back from a hash, along the stored links.
  pub walk : ℕ → ℕ → Trail B.Store → Result Error (List AuditEvent)
  walk zero h s = ok []
  walk (suc n) h s = do
    event ← get_event B h s
    rest ← walk n event.merkle_proof s
    ok (event ∷ rest)

-- The event that a call stores.
abbrev pub event_of : ℕ → Txn → Entry → AuditEvent
event_of previous t e = record {
  event_hash = e.event_hash;
  event_type = e.event_type;
  consent_hash = e.consent_hash;
  actor = e.actor;
  timestamp = t.round;
  previous_status = e.previous_status;
  new_status = e.new_status;
  merkle_proof = previous;
}

-- The abstract trail: the events of the calls, the last one first, in front of older ones.
pub trail_of : ℕ → List (Txn × Entry) → List AuditEvent → List AuditEvent
trail_of previous [] older = older
trail_of previous ((t, e) ∷ es) older = trail_of e.event_hash es (event_of previous t e ∷ older)

length-trail_of :
    (p : ℕ) (es : List (Txn × Entry)) (older : List AuditEvent)
    → length (trail_of p es older) ≡ length es + length older
unfolding trail_of
length-trail_of p [] older = omega arith
length-trail_of p ((t, e) ∷ es) older =
    omega (arith, length-trail_of e.event_hash es (event_of p t e ∷ older))

abbrev NotIn : ℕ → List AuditEvent → Type 0
NotIn k [] = Unit {0}
NotIn k (ev ∷ evs) = (ev.event_hash ≢ k) × NotIn k evs

-- The hashes to be logged are not among those of older events.
abbrev Apart : List AuditEvent → List (Txn × Entry) → Type 0
Apart older [] = Unit {0}
Apart older ((_, e) ∷ es) = NotIn e.event_hash older × Apart older es

Apart-cons :
    (ev : AuditEvent) (older : List AuditEvent) (es : List (Txn × Entry))
    → Fresh ev.event_hash es
    → Apart older es
    → Apart (ev ∷ older) es
Apart-cons ev older [] f a = tt
Apart-cons ev older ((t, e) ∷ es) f a = ((f.0, a.0), Apart-cons ev older es f.1 a.1)

Apart-nil : (es : List (Txn × Entry)) → Apart [] es
Apart-nil [] = tt
Apart-nil ((t, e) ∷ es) = (tt, Apart-nil es)

module _ (B : BoxStore AuditEvent) where
  -- The boxes hold these events, linked from the hash on.
  abbrev Linked : ℕ → List AuditEvent → B.Store → Type 0
  Linked h [] s = Unit {0}
  Linked h (ev ∷ evs) s = (B.get h s ≡ some ev) × (ev.event_hash ≡ h) × Linked ev.merkle_proof evs s

  Linked-put :
      (h k : ℕ) (v : AuditEvent) (evs : List AuditEvent) (s : B.Store)
      → NotIn k evs
      → Linked h evs s
      → Linked h evs (B.put k v s)
  Linked-put h k v [] s n l = tt
  Linked-put h k v (ev ∷ evs) s n l =
      (ground (arith, B.get-put h k v s), l.1, Linked-put ev.merkle_proof k v evs s n.1 l.2)

  Linked-walk :
      (h : ℕ) (evs : List AuditEvent) (s : Trail B.Store)
      → Linked h evs s.boxes
      → walk B (length evs) h s ≡ ok evs
  unfolding walk get_event
  Linked-walk h [] s l = refl
  Linked-walk h (ev ∷ evs) s l = ground (arith, Linked-walk ev.merkle_proof evs s l.2)

  -- One more call links one more event.
  log_event-Linked :
      (t : Txn) (e : Entry) (older : List AuditEvent) (s : Trail B.Store)
      → Linked s.last_event_hash older s.boxes
      → NotIn e.event_hash older
      → s.event_counter + 1 < word
      → let s' = after s (log_event B t e s) in
        Linked s'.last_event_hash (event_of s.last_event_hash t e ∷ older) s'.boxes
        × (s'.last_event_hash ≡ e.event_hash)
        × (s'.event_counter ≡ s.event_counter + 1)
  unfolding log_event
  log_event-Linked t e older s l n room =
      let ev = event_of s.last_event_hash t e in
      rw (lt→ltb (s.event_counter + 1) word room) (
        (
          (ground (arith, B.get-put e.event_hash e.event_hash ev s.boxes)),
          refl,
          Linked-put s.last_event_hash e.event_hash ev older s.boxes n l,
        ),
        refl,
        refl,
      )

  log_all-Linked :
      (es : List (Txn × Entry)) (older : List AuditEvent) (s : Trail B.Store)
      → Linked s.last_event_hash older s.boxes
      → AllFresh es
      → Apart older es
      → s.event_counter + length es < word
      → let s' = log_all B es s in
        Linked s'.last_event_hash (trail_of s.last_event_hash es older) s'.boxes
        × (s'.event_counter ≡ s.event_counter + length es)
  unfolding log_all trail_of
  log_all-Linked [] older s l f a room = (l, omega arith)
  log_all-Linked ((t, e) ∷ es) older s l f a room =
      let s1 = after s (log_event B t e s) in
      let (l1, last, count) = log_event-Linked t e older s l a.0 (omega arith) in
      let ev = event_of s.last_event_hash t e in
      let ih =
        log_all-Linked es (ev ∷ older) s1 l1 f.1 (Apart-cons ev older es f.0 a.1) (omega arith) in
      (rw last at ih.0, omega (arith, ih.1))

  -- After any list of `log_event` calls on a new contract, with pairwise different hashes and fewer
  -- than 2^64 of them, the count is their number, and a reader who follows the stored links from
  -- the last hash gets every event, with its fields and round, the last one first, the first one
  -- linked to the zero hash.
  pub walk_recovers :
      (creator : ℕ) (es : List (Txn × Entry))
      → AllFresh es
      → length es < word
      → let s = log_all B es (init B creator) in
        (walk B (length es) s.last_event_hash s ≡ ok (trail_of 0 es []))
        × (get_event_count B s ≡ length es)
  unfolding init get_event_count
  walk_recovers creator es f room =
      let s0 = init B creator in
      let all = log_all-Linked es [] s0 tt f (Apart-nil es) (omega arith) in
      let s = log_all B es s0 in
      let evs = trail_of 0 es [] in
      let n : length evs ≡ length es = omega (arith, length-trail_of 0 es []) in
      (
        subst (λ m. walk B m s.last_event_hash s ≡ ok evs) n
            (Linked-walk s.last_event_hash evs s all.0),
        omega (arith, all.1),
      )
