-- ===== src/Shutdown/Invariant.antt =====
-- Every step of a shutdown keeps its counts and phases together: api/lifecycle/shutdown.py.
use Prim.Native.String.{String}
use consentchain.Prelude.{
  ℕ, ◌+◌, ◌≤◌, ◌≡◌, ◌∙◌, refl, true, List, [], ◌∷◌, arith, length, length-append, get_elem?,
  get_elem?-some, ok, Bool-cases, subst, Option-cases, inl, inr,
}
use consentchain.Shutdown.{
  running, cleanup, Place, not_started, waiting_for_drain, at_handler, returned, GracefulShutdown,
  ShutdownStats, handler_timeout, handler_error, HandlerOutcome, finished, timed_out, failed,
  new_shutdown, is_shutting_down, is_empty, discard, register_handler, enter, exit,
  initiate_shutdown, end_drain, end_handler, go_to_handler, set_phase, started, count_handler,
}
use consentchain.Shutdown.Steps.{
  IsIn, Step, registers, enters, exits, initiates, drains, handles, Steps, stays, goes, Agrees,
  IsConsistent,
}

length-discard : (id : ℕ) (xs : List ℕ) → IsIn id xs → length (discard id xs) + 1 ≡ length xs
unfolding discard
length-discard id [] h = absurd h
length-discard id (x ∷ xs) (inl h) = ground arith
length-discard id (x ∷ xs) (inr h) = let ih = length-discard id xs h in ground arith

go_to_handler-IsConsistent :
    (i : ℕ) (s : GracefulShutdown)
    → length s.active_requests + s.completed_requests ≡ s.request_counter
    → s.phase ≡ cleanup
    → s.cleanup_handlers_run + length s.errors ≡ i
    → i ≤ length s.handlers
    → (s.drain_complete ≡ true → s.active_requests ≡ [])
    → IsConsistent (go_to_handler i s)
unfolding go_to_handler
go_to_handler-IsConsistent i s c p n le d = elim (Option-cases (get_elem? s.handlers i)) [
  | inl e ↦
      rw (go_to_handler, e) (record { counted = c; agrees = (refl, omega arith); drained = d })
  | inr (h, e) ↦
      rw (go_to_handler, e)
        (record { counted = c; agrees = (p, n, get_elem?-some s.handlers i e); drained = d })
]

running_not_started :
    (p : Place) (s : GracefulShutdown) → s.phase ≡ running → Agrees p s → p ≡ not_started
running_not_started not_started s e a = refl
running_not_started waiting_for_drain s e a = absurd (ground arith)
running_not_started (at_handler i) s e a = absurd (ground arith)
running_not_started returned s e a = absurd (ground arith)

initiate_shutdown-IsConsistent :
    (now : ℕ) (s : GracefulShutdown) → IsConsistent s → IsConsistent (initiate_shutdown now s)
unfolding initiate_shutdown
initiate_shutdown-IsConsistent now s v = elim (Bool-cases (is_shutting_down s)) [
  | inl e ↦ rw (initiate_shutdown, e) v
  | inr e ↦
      let first = running_not_started s.at s (ground arith) v.agrees in
      let zero = subst (λ p. Agrees p s) first v.agrees in
      elim (Bool-cases (is_empty s.active_requests)) [
        | inl none_left ↦
            rw (initiate_shutdown, e, none_left)
              (go_to_handler-IsConsistent 0 (set_phase cleanup (started now s)) v.counted refl
                zero.1 (omega arith) v.drained)
        | inr some_left ↦
            rw (initiate_shutdown, e, some_left)
              (record { counted = v.counted; agrees = (refl, zero.1); drained = v.drained })
      ]
]

more_handlers :
    (p : Place) (name : String) (handler : ℕ) (s : GracefulShutdown)
    → Agrees p s
    → Agrees p (register_handler name handler s)
unfolding register_handler
more_handlers not_started name h s a = a
more_handlers waiting_for_drain name h s a = a
more_handlers (at_handler i) name h s a =
    (a.0, a.1, omega (arith, a.2, length-append s.handlers ((name, h) ∷ [])))
more_handlers returned name h s a =
    (a.0, omega (arith, a.1, length-append s.handlers ((name, h) ∷ [])))

register_handler-IsConsistent :
    (name : String) (handler : ℕ) (s : GracefulShutdown)
    → IsConsistent s
    → IsConsistent (register_handler name handler s)
unfolding register_handler
register_handler-IsConsistent name h s v = record {
  counted = v.counted;
  agrees = more_handlers s.at name h s v.agrees;
  drained = v.drained;
}

enter-IsConsistent :
    (s s' : GracefulShutdown) (id : ℕ) → enter s ≡ ok (s', id) → IsConsistent s → IsConsistent s'
unfolding enter
enter-IsConsistent s s' id h v = elim (Bool-cases (is_shutting_down s)) [
  | inl e ↦ absurd (ground arith)
  | inr e ↦
      let first = running_not_started s.at s (ground arith) v.agrees in
      let zero = subst (λ p. Agrees p s) first v.agrees in
      let same : s' ≡ record s {
        request_counter = s.request_counter + 1;
        active_requests = (s.request_counter + 1) ∷ s.active_requests;
      } =
        ground arith in
      rw same (record {
        counted = omega (arith, v.counted);
        agrees = rw first zero;
        drained = λ set. absurd (ground arith);
      })
]

is_empty-nil : (xs : List ℕ) → is_empty xs ≡ true → xs ≡ []
is_empty-nil [] h = refl
is_empty-nil (x ∷ xs) h = cc

one_exit : (p : Place) (id : ℕ) (s : GracefulShutdown) → Agrees p s → Agrees p (exit id s)
unfolding exit
one_exit not_started id s a = (a.0, a.1, ground arith)
one_exit waiting_for_drain id s a = a
one_exit (at_handler i) id s a = a
one_exit returned id s a = a

exit-IsConsistent :
    (id : ℕ) (s : GracefulShutdown)
    → IsIn id s.active_requests
    → IsConsistent s
    → IsConsistent (exit id s)
unfolding exit
exit-IsConsistent id s here v =
    let one_less = length-discard id s.active_requests here in
    record {
      counted = omega (arith, v.counted, one_less);
      agrees = one_exit s.at id s v.agrees;
      drained = λ set. elim (Bool-cases (is_empty (discard id s.active_requests))) [
        | inl e ↦ is_empty-nil (discard id s.active_requests) e
        | inr e ↦
            let before : s.drain_complete ≡ true = ground arith in
            absurd (subst (IsIn id) (v.drained before) here)
      ];
    }

pub count_handler_keeps :
    (name : String) (o : HandlerOutcome) (st : ShutdownStats)
    → let st' = count_handler name o st in
      (st'.phase ≡ st.phase) × (st'.completed_requests ≡ st.completed_requests)
count_handler_keeps name finished st = (refl, refl)
count_handler_keeps name timed_out st = (refl, refl)
count_handler_keeps name (failed e) st = (refl, refl)

one_handler :
    (name : String) (o : HandlerOutcome) (st : ShutdownStats) {i : ℕ}
    → st.cleanup_handlers_run + length st.errors ≡ i
    → let st' = count_handler name o st in st'.cleanup_handlers_run + length st'.errors ≡ i + 1
one_handler name finished st h = omega arith
one_handler name timed_out st h = omega (arith, length-append st.errors (handler_timeout name ∷ []))
one_handler name (failed e) st h =
    omega (arith, length-append st.errors (handler_error name e ∷ []))

end_handler-IsConsistent :
    (i : ℕ) (name : String) (o : HandlerOutcome) (s : GracefulShutdown)
    → s.at ≡ at_handler i
    → IsConsistent s
    → IsConsistent (end_handler i name o s)
unfolding end_handler
end_handler-IsConsistent i name o s here v =
    let a = subst (λ p. Agrees p s) here v.agrees in
    let kept = count_handler_keeps name o s.stats in
    go_to_handler-IsConsistent (i + 1) (record s { stats = count_handler name o s.stats })
      (omega (arith, v.counted, kept.1)) (kept.0 ∙ a.0) (one_handler name o s.stats a.1)
      (omega (arith, a.2)) v.drained

end_drain-IsConsistent :
    (s : GracefulShutdown) → s.at ≡ waiting_for_drain → IsConsistent s → IsConsistent (end_drain s)
unfolding end_drain
end_drain-IsConsistent s here v =
    let a = subst (λ p. Agrees p s) here v.agrees in
    go_to_handler-IsConsistent 0 (set_phase cleanup s) v.counted refl a.1 (omega arith) v.drained

Step-IsConsistent : {s t : GracefulShutdown} → Step s t → IsConsistent s → IsConsistent t
Step-IsConsistent (registers name h s) v = register_handler-IsConsistent name h s v
Step-IsConsistent (enters s {s' = s'} {id = id} h) v = enter-IsConsistent s s' id h v
Step-IsConsistent (exits id s here) v = exit-IsConsistent id s here v
Step-IsConsistent (initiates now s) v = initiate_shutdown-IsConsistent now s v
Step-IsConsistent (drains s here) v = end_drain-IsConsistent s here v
Step-IsConsistent (handles i name h o s here there) v = end_handler-IsConsistent i name o s here v

new_shutdown-IsConsistent : IsConsistent new_shutdown
new_shutdown-IsConsistent = record {
  counted = refl;
  agrees = (refl, refl, refl);
  drained = λ h. cc;
}

-- However requests, handlers and signals interleave: the requests under way and those completed are
-- all that were let in; the phase is that of the place where the shutdown stands, and each handler
-- that was gone through was counted once, as run or as an error; and the event that ends the wait is
-- set only when no request is under way.
pub Steps-IsConsistent : {s : GracefulShutdown} → Steps new_shutdown s → IsConsistent s
Steps-IsConsistent steps = go steps new_shutdown-IsConsistent
  where
    go : {s t : GracefulShutdown} → Steps s t → IsConsistent s → IsConsistent t
    go stays v = v
    go (goes r st) v = Step-IsConsistent st (go r v)
