-- ===== src/Events/Queueing.antt =====
-- The order in which events leave the queue, and what becomes of those that fail.
use consentchain.Prelude.{
  ℕ, ◌+◌, ◌≡◌, ◌≢◌, ◌⊎◌, ◌∙◌, sym, subst, ◌<◌, ◌≤◌, refl, Bool, true, false, none, some, List, [],
  ◌∷◌, arith, ltb, lookup, lookup-erase_self, nat_eq, Bool-cases, Option-cases, inl, inr,
}
use consentchain.Events.{
  Event, Entry, EventQueue, before, put_entry, new_queue, enqueue, dequeue, ack, nack,
}

-- The first entry has the lower priority, or the same one and the earlier time.
abbrev pub Comes : Entry → Entry → Type 0
Comes x y = (x.priority < y.priority) ⊎ ((x.priority ≡ y.priority) × (x.process_at < y.process_at))

-- An entry comes before all of a list.
abbrev pub IsFirst : Entry → List Entry → Type 0
IsFirst x [] = Unit {0}
IsFirst x (y ∷ ys) = Comes x y × IsFirst x ys

abbrev pub IsOrdered : List Entry → Type 0
IsOrdered [] = Unit {0}
IsOrdered (x ∷ xs) = IsFirst x xs × IsOrdered xs

-- No entry of the list has this priority and this time.
abbrev pub IsApart : ℕ → ℕ → List Entry → Type 0
IsApart priority time [] = Unit {0}
IsApart priority time (y ∷ ys) =
    ((priority ≡ y.priority → time ≢ y.process_at)) × IsApart priority time ys

compare_cases : (n m : ℕ) → (n < m) ⊎ ((n ≡ m) ⊎ (m < n))
compare_cases n m = elim (Bool-cases (ltb n m)) [
  | inl e ↦ inl (ground arith)
  | inr e ↦ elim (Bool-cases (ltb m n)) [
    | inl e' ↦ inr (inr (ground arith))
    | inr e' ↦ inr (inl (ground arith))
  ]
]

before-Comes : (x y : Entry) → before x y ≡ true → Comes x y
before-Comes x y h = elim (compare_cases x.priority y.priority) [
  | inl less ↦ inl less
  | inr (inl same) ↦ inr (same, ground arith)
  | inr (inr more) ↦ absurd (ground arith)
]

after-Comes :
    (x y : Entry)
    → (x.priority ≡ y.priority → x.process_at ≢ y.process_at)
    → before x y ≡ false
    → Comes y x
after-Comes x y apart h = elim (compare_cases x.priority y.priority) [
  | inl less ↦ absurd (ground arith)
  | inr (inr more) ↦ inl more
  | inr (inl same) ↦ elim (compare_cases x.process_at y.process_at) [
    | inl less ↦ absurd (ground arith)
    | inr (inl equal) ↦ absurd (apart same equal)
    | inr (inr more) ↦ inr (sym same, more)
  ]
]

Comes-trans : (x y z : Entry) → Comes x y → Comes y z → Comes x z
Comes-trans x y z (inl h) (inl k) = inl (omega arith)
Comes-trans x y z (inl h) (inr k) = inl (ground (arith, k.0))
Comes-trans x y z (inr h) (inl k) = inl (ground (arith, h.0))
Comes-trans x y z (inr h) (inr k) = inr (h.0 ∙ k.0, ground (arith, h.1, k.1))

earlier-IsFirst : (x y : Entry) (ys : List Entry) → Comes x y → IsFirst y ys → IsFirst x ys
earlier-IsFirst x y [] h l = tt
earlier-IsFirst x y (z ∷ zs) h l = (Comes-trans x y z h l.0, earlier-IsFirst x y zs h l.1)

put_entry-IsFirst :
    (x z : Entry) (ys : List Entry) → Comes z x → IsFirst z ys → IsFirst z (put_entry x ys)
unfolding put_entry
put_entry-IsFirst x z [] h l = (h, tt)
put_entry-IsFirst x z (y ∷ ys) h l = elim (Bool-cases (before x y)) [
  | inl e ↦ rw e (h, l)
  | inr e ↦ rw e (l.0, put_entry-IsFirst x z ys h l.1)
]

put_entry-IsOrdered :
    (x : Entry) (ys : List Entry)
    → IsApart x.priority x.process_at ys
    → IsOrdered ys
    → IsOrdered (put_entry x ys)
unfolding put_entry
put_entry-IsOrdered x [] apart o = (tt, tt)
put_entry-IsOrdered x (y ∷ ys) apart o = elim (Bool-cases (before x y)) [
  | inl e ↦ let first = before-Comes x y e in rw e ((first, earlier-IsFirst x y ys first o.0), o)
  | inr e ↦ rw e (
    put_entry-IsFirst x y ys (after-Comes x y apart.0 e) o.0,
    put_entry-IsOrdered x ys apart.1 o.1,
  )
]

IsFirst-IsApart : (x : Entry) (ys : List Entry) → IsFirst x ys → IsApart x.priority x.process_at ys
IsFirst-IsApart x [] l = tt
IsFirst-IsApart x (y ∷ ys) (inl less, l) = ((λ same time. ground arith), IsFirst-IsApart x ys l)
IsFirst-IsApart x (y ∷ ys) (inr (same, less), l) =
    ((λ same' time. ground (arith, less)), IsFirst-IsApart x ys l)

-- A call. An entry that is put in the queue differs from each one there in its priority or its time:
-- the code would compare their events, which raises TypeError.
pub data Step : EventQueue → EventQueue → Type 0 where
  enqueues :
      (now : ℕ) (e : Event) (priority delay : ℕ) (q : EventQueue) {q' : EventQueue}
      → IsApart priority (now + delay) q.queue
      → enqueue now e priority delay q ≡ some q'
      → Step q q'
  dequeues : (now : ℕ) (q : EventQueue) → Step q (dequeue now q).0
  acks : (event_id : ℕ) (q : EventQueue) → Step q (ack event_id q)
  nacks :
      (now event_id : ℕ) (requeue : Bool) (q : EventQueue) {q' : EventQueue}
      → (requeue ≡ true → IsApart 0 now q.queue)
      → nack now event_id requeue q ≡ some q'
      → Step q q'

pub data Reach (max_size : ℕ) : EventQueue → Type 0 where
  created : Reach max_size (new_queue max_size)
  next : {q q' : EventQueue} → Reach max_size q → Step q q' → Reach max_size q'

enqueue-IsOrdered :
    (now : ℕ) (e : Event) (p d : ℕ) (q q' : EventQueue)
    → IsApart p (now + d) q.queue
    → enqueue now e p d q ≡ some q'
    → IsOrdered q.queue
    → IsOrdered q'.queue
unfolding enqueue
enqueue-IsOrdered now e p d q q' apart h o =
    let entry : Entry = record { priority = p; process_at = now + d; event = e } in
    let same : q'.queue ≡ put_entry entry q.queue = ground arith in
    rw same (put_entry-IsOrdered entry q.queue apart o)

dequeue-IsOrdered :
    (now : ℕ) (q : EventQueue) (xs : List Entry)
    → q.queue ≡ xs
    → IsOrdered xs
    → IsOrdered (dequeue now q).0.queue
unfolding dequeue
dequeue-IsOrdered now q [] e o = rw (dequeue, e) (rw e o)
dequeue-IsOrdered now q (x ∷ xs) e o = elim (Bool-cases (ltb now x.process_at)) [
  | inl early ↦ rw (dequeue, e, early) (put_entry-IsOrdered x xs (IsFirst-IsApart x xs o.0) o.1)
  | inr due ↦ rw (dequeue, e, due) o.1
]

nack-IsOrdered :
    (now id : ℕ) (again : Bool) (q q' : EventQueue)
    → (again ≡ true → IsApart 0 now q.queue)
    → nack now id again q ≡ some q'
    → IsOrdered q.queue
    → IsOrdered q'.queue
unfolding nack
nack-IsOrdered now id again q q' apart h o = elim (Option-cases (lookup id q.pending)) [
  | inl e ↦ let same : q'.queue ≡ q.queue = ground arith in rw same o
  | inr (ev, e) ↦ elim (Option-cases (enqueue now ev 0 0 q)) [
    | inl full ↦ let same : q'.queue ≡ q.queue = ground arith in rw same o
    | inr (q2, put) ↦ elim (Bool-cases again) [
      | inl wanted ↦
          let same : q'.queue ≡ q2.queue = ground arith in
          rw same (enqueue-IsOrdered now ev 0 0 q q2 (still (apart wanted)) put o)
      | inr unwanted ↦ let same : q'.queue ≡ q.queue = ground arith in rw same o
    ]
  ]
]
  where
    still : IsApart 0 now q.queue → IsApart 0 (now + 0) q.queue
    still = subst (λ t. IsApart 0 t q.queue) (omega arith)

Step-IsOrdered : {q q' : EventQueue} → Step q q' → IsOrdered q.queue → IsOrdered q'.queue
unfolding ack
Step-IsOrdered (enqueues now e p d q {q' = q'} apart h) o =
    enqueue-IsOrdered now e p d q q' apart h o
Step-IsOrdered (dequeues now q) o = dequeue-IsOrdered now q q.queue refl o
Step-IsOrdered (acks id q) o = o
Step-IsOrdered (nacks now id again q {q' = q'} apart h) o =
    nack-IsOrdered now id again q q' apart h o

Reach-IsOrdered : {n : ℕ} {q : EventQueue} → Reach n q → IsOrdered q.queue
Reach-IsOrdered created = tt
Reach-IsOrdered (next r st) = Step-IsOrdered st (Reach-IsOrdered r)

taken_head :
    (now : ℕ) (q : EventQueue) (es : List Entry) {e : Event}
    → q.queue ≡ es
    → IsOrdered es
    → (dequeue now q).1 ≡ some e
    → (x : Entry) × (x.event ≡ e)
      × (x.process_at ≤ now)
      × (q.queue ≡ x ∷ (dequeue now q).0.queue)
      × IsFirst x (dequeue now q).0.queue
unfolding dequeue
taken_head now q [] same o h = absurd (ground arith)
taken_head now q (x ∷ xs) same o h =
    let rest : (dequeue now q).0.queue ≡ xs = ground arith in
    (x, ground arith, ground arith, ground (arith, rest), rw rest o.0)

-- Whatever was queued, taken, acknowledged or refused before, where no two entries agreed in priority
-- and time: an event that is taken is due, and its entry has a lower priority than each one that
-- stays, or the same priority and an earlier time.
pub dequeue_in_order :
    (n now : ℕ) (q : EventQueue) {e : Event}
    → Reach n q
    → (dequeue now q).1 ≡ some e
    → (x : Entry) × (x.event ≡ e)
      × (x.process_at ≤ now)
      × (q.queue ≡ x ∷ (dequeue now q).0.queue)
      × IsFirst x (dequeue now q).0.queue
unfolding dequeue
dequeue_in_order n now q {e = e} r h = taken_head now q q.queue refl (Reach-IsOrdered r) h

-- While the first entry is not due, nothing is taken, whatever entries behind it are due, and the
-- queue stays as it is.
delayed_entry_blocks :
    (now : ℕ) (x y : Entry) (ys : List Entry) (q : EventQueue)
    → q.queue ≡ x ∷ y ∷ ys
    → before x y ≡ true
    → now < x.process_at
    → dequeue now q ≡ (q, none)
unfolding dequeue put_entry
delayed_entry_blocks now x y ys q e first early = ground arith

-- An event that was taken and is then refused, to be queued again, is lost: it is no longer pending,
-- so the queue stays without it and only the count of failures grows.
nack_loses_event :
    (now later : ℕ) (q : EventQueue) {e : Event}
    → (dequeue now q).1 ≡ some e
    → let q' = (dequeue now q).0 in
      nack later e.id true q' ≡ some (record q' { failed = q'.failed + 1 })
unfolding dequeue nack
nack_loses_event now later q {e = e} h =
    let gone : lookup e.id (dequeue now q).0.pending ≡ none =
      ground (arith, lookup-erase_self e.id q.pending) in
    rw (nack, gone) refl
