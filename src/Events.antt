-- ===== src/Events.antt =====
-- Publish and subscribe, api/events/__init__.py: `EventBus` and `EventQueue`. Handlers and
-- middleware are known by a number; what one does with an event is an argument: a handler raises or
-- not, a middleware returns an event or raises. A queue entry is ordered by priority, then time;
-- for two that agree in both the code compares the events, which raises TypeError: entries are
-- taken to differ there.
pub mod Delivery
pub mod Queueing
mod Tests
use consentchain.Prelude.{
  ℕ, ◌+◌, Bool, true, false, not, ◌&&◌, ◌||◌, Option, none, some, List, [], ◌∷◌, ◌++◌, ltb, leb,
  eqb, if◌then◌else◌, length, Dict, lookup, insert, erase, contains, nat_eq, remove_first,
}

-- An event by its identifier, its type and its payload.
pub record Event : Type 0 where
  pub id : ℕ
  pub kind : ℕ
  pub contents : ℕ

pub record BusStats : Type 0 where
  pub events_published : ℕ
  pub events_handled : ℕ
  pub handler_errors : ℕ

pub record EventBus : Type 0 where
  pub handlers : Dict ℕ (List ℕ)
  pub wildcard_handlers : List ℕ
  pub middleware : List ℕ
  pub stats : BusStats
  pub open stats use *

abbrev pub new_bus : EventBus
new_bus = record {
  handlers = [];
  wildcard_handlers = [];
  middleware = [];
  stats = record { events_published = 0; events_handled = 0; handler_errors = 0 };
}

-- `self._handlers.get(event_type, [])`
abbrev pub handlers_of : ℕ → EventBus → List ℕ
handlers_of kind b = elim (lookup kind b.handlers) [ none ↦ [] | some hs ↦ hs ]

unfoldable pub subscribe : ℕ → ℕ → EventBus → EventBus
subscribe event_type handler b = record b {
  handlers = insert event_type (handlers_of event_type b ++ (handler ∷ [])) b.handlers;
}

unfoldable pub subscribe_all : ℕ → EventBus → EventBus
subscribe_all handler b = record b { wildcard_handlers = b.wildcard_handlers ++ (handler ∷ []) }

unfoldable pub unsubscribe : ℕ → ℕ → EventBus → EventBus
unsubscribe event_type handler b = elim (lookup event_type b.handlers) [
  | none ↦ b
  | some hs ↦ record b { handlers = insert event_type (remove_first handler hs) b.handlers }
]

unfoldable pub add_middleware : ℕ → EventBus → EventBus
add_middleware m b = record b { middleware = b.middleware ++ (m ∷ []) }

-- What the functions that are plugged in do with an event: none is an exception.
pub record Behaviour : Type 0 where
  pub transform : ℕ → Event → Option Event
  pub succeeds : ℕ → Event → Bool

-- A middleware that raises leaves the event as the ones before it made it.
unfoldable pub process : Behaviour → List ℕ → Event → Event
process w [] e = e
process w (m ∷ ms) e = elim (w.transform m e) [ none ↦ process w ms e | some e' ↦ process w ms e' ]

-- `gather`, and the count of its results.
unfoldable pub call_handlers : Behaviour → Event → List ℕ → BusStats → BusStats
call_handlers w e [] st = st
call_handlers w e (h ∷ hs) st = call_handlers w e hs (
    if w.succeeds h e
    then record st { events_handled = st.events_handled + 1 }
    else record st { handler_errors = st.handler_errors + 1 })

-- The handlers are those of the type of the event that is published; they are called with what the
-- middleware made of it.
unfoldable pub publish : Behaviour → Event → EventBus → EventBus
publish w e b = record b {
  stats =
      call_handlers w (process w b.middleware e) (handlers_of e.kind b ++ b.wildcard_handlers)
        (record (b.stats) { events_published = b.events_published + 1 });
}

pub record Entry : Type 0 where
  pub priority : ℕ
  pub process_at : ℕ
  pub event : Event

pub record EventQueue : Type 0 where
  pub max_size : ℕ
  pub queue : List Entry
  pub pending : Dict ℕ Event
  pub queued : ℕ
  pub processed : ℕ
  pub failed : ℕ

abbrev pub new_queue : ℕ → EventQueue
new_queue max_size = record {
  max_size = max_size;
  queue = [];
  pending = [];
  queued = 0;
  processed = 0;
  failed = 0;
}

abbrev pub before : Entry → Entry → Bool
before x y =
    ltb x.priority y.priority || (eqb x.priority y.priority && ltb x.process_at y.process_at)

-- The priority queue as the sorted list of its entries, where no two agree in priority and time: the
-- heap of the code raises TypeError when it compares such two.
unfoldable pub put_entry : Entry → List Entry → List Entry
put_entry x [] = x ∷ []
put_entry x (y ∷ ys) = let rest = put_entry x ys in if before x y then x ∷ y ∷ ys else y ∷ rest

-- None when the queue is full: `put` then waits.
unfoldable pub enqueue : ℕ → Event → ℕ → ℕ → EventQueue → Option EventQueue
enqueue now e priority delay_seconds q =
    let entry : Entry = record {
      priority = priority;
      process_at = now + delay_seconds;
      event = e;
    } in
    if not (eqb q.max_size 0) && leb q.max_size (length q.queue)
    then none
    else some (record q {
      queue = put_entry entry q.queue;
      pending = insert e.id e q.pending;
      queued = q.queued + 1;
    })

-- An empty queue is a timeout; an entry whose time has not come goes back, and hides the others.
unfoldable pub dequeue : ℕ → EventQueue → EventQueue × Option Event
dequeue now q = elim q.queue [
  | [] ↦ (q, none)
  | (x ∷ xs) ↦
      if ltb now x.process_at
      then (record q { queue = put_entry x xs }, none)
      else (record q { queue = xs; pending = erase x.event.id q.pending }, some x.event)
]

unfoldable pub ack : ℕ → EventQueue → EventQueue
ack event_id q = record q { pending = erase event_id q.pending; processed = q.processed + 1 }

-- None when the queue is full.
unfoldable pub nack : ℕ → ℕ → Bool → EventQueue → Option EventQueue
nack now event_id requeue q =
    let again : Option EventQueue = elim (lookup event_id q.pending) [
      | none ↦ some q
      | some e ↦ if requeue then enqueue now e 0 0 q else some q
    ] in
    elim again [ none ↦ none | some q' ↦ some (record q' { failed = q'.failed + 1 }) ]
