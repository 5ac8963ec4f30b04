-- ===== src/Events/Tests.antt =====
-- The bus with two handlers, and a queue with a delayed event in front.
use consentchain.Prelude.{◌≡◌, ◌≤◌, refl, not, none, [], ◌∷◌, eqb, lookup, insert, nat_eq, arith}
use consentchain.Events.{
  Event, EventBus, Behaviour, Entry, EventQueue, new_bus, new_queue, call_handlers, publish,
  enqueue, put_entry, dequeue,
}
use consentchain.Events.Queueing.{IsFirst, Reach, created, next, enqueues, dequeue_in_order}

abbrev event : Event
event = record { id = 9; kind = 1; contents = 5 }

-- Handler 3 fails on everything; the only middleware raises.
abbrev behaviour : Behaviour
behaviour = record { transform = λ m e. none; succeeds = λ h e. not (eqb h 3) }

abbrev bus : EventBus
bus = record new_bus { handlers = (1, 3 ∷ 4 ∷ []) ∷ []; wildcard_handlers = 5 ∷ [] }

published :
    (publish behaviour event bus).stats
    ≡ record { events_published = 1; events_handled = 2; handler_errors = 1 }
unfolding publish call_handlers lookup
published = refl

abbrev first : Entry
first = record { priority = 0; process_at = 100; event = event }

abbrev second : Entry
second = record { priority = 1; process_at = 10; event = record event { id = 8 } }

-- An urgent event that is delayed, before one that is due.
abbrev queue : EventQueue
queue = record (new_queue 10) {
  queue = first ∷ second ∷ [];
  pending = (9, event) ∷ (8, record event { id = 8 }) ∷ [];
  queued = 2;
}

reached : Reach 10 queue
unfolding enqueue insert put_entry
reached =
    next (next created (enqueues 0 event 0 100 _ tt refl))
      (enqueues 5 (record event { id = 8 }) 1 5 _ ((λ e. absurd (omega arith)), tt) refl)

dequeue_in_order_example :
    (x : Entry) × (x.event ≡ event)
    × (x.process_at ≤ 120)
    × (queue.queue ≡ x ∷ (dequeue 120 queue).0.queue)
    × IsFirst x (dequeue 120 queue).0.queue
unfolding dequeue
dequeue_in_order_example = dequeue_in_order 10 120 queue reached refl
