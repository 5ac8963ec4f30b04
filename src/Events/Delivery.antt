-- ===== src/Events/Delivery.antt =====
-- Who is called for an event, and what the statistics say of it.
use consentchain.Prelude.{
  ℕ, ◌+◌, ◌≡◌, ◌≢◌, refl, not, List, [], ◌∷◌, ◌++◌, arith, length, keep, lookup-insert,
  lookup-insert_self, insert, nat_eq, ==_iff, remove_first,
}
use consentchain.Events.{
  Event, BusStats, EventBus, Behaviour, handlers_of, subscribe, unsubscribe, process, call_handlers,
  publish,
}

call_handlers_counts :
    (w : Behaviour) (e : Event) (hs : List ℕ) (st : BusStats)
    → let st' = call_handlers w e hs st in
      (st'.events_published ≡ st.events_published)
      × (st'.events_handled ≡ st.events_handled + length (keep (λ h. w.succeeds h e) hs))
      × (st'.handler_errors ≡ st.handler_errors + length (keep (λ h. not (w.succeeds h e)) hs))
unfolding call_handlers
call_handlers_counts w e [] st = (refl, omega arith, omega arith)
call_handlers_counts w e (h ∷ hs) st =
    let handled = record st { events_handled = st.events_handled + 1 } in
    let raised = record st { handler_errors = st.handler_errors + 1 } in
    ground (arith, call_handlers_counts w e hs handled, call_handlers_counts w e hs raised)

-- Publishing calls each handler of the event's type and each wildcard handler, with the event as the
-- middleware left it: those that succeed are counted as handled, the others as errors, and no
-- handler, wildcard or middleware changes.
publish_counts :
    (w : Behaviour) (e : Event) (b : EventBus)
    → let b' = publish w e b in
      let e' = process w b.middleware e in
      let called = handlers_of e.kind b ++ b.wildcard_handlers in
      (b'.events_published ≡ b.events_published + 1)
      × (b'.events_handled ≡ b.events_handled + length (keep (λ h. w.succeeds h e') called))
      × (b'.handler_errors ≡ b.handler_errors + length (keep (λ h. not (w.succeeds h e')) called))
      × (b'.handlers ≡ b.handlers)
      × (b'.middleware ≡ b.middleware)
unfolding publish
publish_counts w e b =
    let counts =
      call_handlers_counts w (process w b.middleware e)
        (handlers_of e.kind b ++ b.wildcard_handlers)
        (record (b.stats) { events_published = b.events_published + 1 }) in
    (counts.0, counts.1, counts.2, refl, refl)

abbrev pub IsAbsent : ℕ → List ℕ → Type 0
IsAbsent h [] = Unit {0}
IsAbsent h (x ∷ xs) = x ≢ h × IsAbsent h xs

remove_first-append : (h : ℕ) (xs : List ℕ) → IsAbsent h xs → remove_first h (xs ++ (h ∷ [])) ≡ xs
unfolding remove_first
remove_first-append h [] a = ground arith
remove_first-append h (x ∷ xs) a = let ih = remove_first-append h xs a.1 in ground arith

unsubscribe-handlers :
    (k h : ℕ) (b : EventBus)
    → IsAbsent h (handlers_of k b)
    → (unsubscribe k h (subscribe k h b)).handlers
      ≡ insert k (handlers_of k b) (insert k (handlers_of k b ++ (h ∷ [])) b.handlers)
unfolding subscribe unsubscribe
unsubscribe-handlers k h b absent =
    let hs = handlers_of k b in
    ground
      (arith, lookup-insert_self k (hs ++ (h ∷ [])) b.handlers, remove_first-append h hs absent)

-- A handler that was not subscribed to a type, once subscribed and unsubscribed, leaves the handlers
-- of every type as they were.
unsubscribe-subscribe :
    (event_type handler other : ℕ) (b : EventBus)
    → IsAbsent handler (handlers_of event_type b)
    → handlers_of other (unsubscribe event_type handler (subscribe event_type handler b))
      ≡ handlers_of other b
unsubscribe-subscribe k h o b absent =
    let hs = handlers_of k b in
    let added = insert k (hs ++ (h ∷ [])) b.handlers in
    ground (
      arith,
      unsubscribe-handlers k h b absent,
      lookup-insert o k hs added,
      lookup-insert o k (hs ++ (h ∷ [])) b.handlers,
      ==_iff k o,
    )
