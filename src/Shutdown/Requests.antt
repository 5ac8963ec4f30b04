-- ===== src/Shutdown/Requests.antt =====
-- What a shutdown promises of requests.
use consentchain.Prelude.{
  ℕ, ◌+◌, ◌≡◌, refl, true, false, List, [], ◌∷◌, arith, err, Bool-cases, inl, inr,
}
use consentchain.Shutdown.{
  cleanup, GracefulShutdown, is_shutting_down, is_empty, discard, register_handler, enter, exit,
  initiate_shutdown, started, count_handler, end_drain, end_handler, go_to_handler, set_phase,
  server_is_shutting_down, waiting_for_drain,
}
use consentchain.Shutdown.Invariant.{count_handler_keeps}
use consentchain.Shutdown.Steps.{
  Step, registers, enters, exits, initiates, drains, handles, Steps, stays, goes,
}

-- What holds once shutting down, of a later state.
abbrev pub IsClosed : ℕ → GracefulShutdown → Type 0
IsClosed n s = (is_shutting_down s ≡ true) × (s.request_counter ≡ n)

go_to_handler-IsClosed :
    (i n : ℕ) (s : GracefulShutdown) → IsClosed n s → IsClosed n (go_to_handler i s)
unfolding go_to_handler
go_to_handler-IsClosed i n s c = ground arith

Step-IsClosed : (n : ℕ) {s t : GracefulShutdown} → Step s t → IsClosed n s → IsClosed n t
unfolding register_handler enter exit initiate_shutdown end_drain end_handler
Step-IsClosed n (registers name h s) c = c
Step-IsClosed n (enters s h) c = absurd (ground arith)
Step-IsClosed n (exits id s here) c = c
Step-IsClosed n (initiates now s) c = ground arith
Step-IsClosed n (drains s here) c = go_to_handler-IsClosed 0 n (set_phase cleanup s) (refl, c.1)
Step-IsClosed n (handles i name h o s here there) c =
    let kept = count_handler_keeps name o s.stats in
    go_to_handler-IsClosed (i + 1) n (record s { stats = count_handler name o s.stats })
      (ground (arith, kept.0, c.0), c.1)

initiate-IsClosed :
    (now : ℕ) (s : GracefulShutdown) → IsClosed s.request_counter (initiate_shutdown now s)
unfolding initiate_shutdown
initiate-IsClosed now s = elim (Bool-cases (is_shutting_down s)) [
  | inl e ↦ rw (initiate_shutdown, e) (e, refl)
  | inr e ↦ elim (Bool-cases (is_empty s.active_requests)) [
    | inl none_left ↦
        rw (initiate_shutdown, e, none_left)
          (go_to_handler-IsClosed 0 s.request_counter (set_phase cleanup (started now s))
            (refl, refl))
    | inr some_left ↦ rw (initiate_shutdown, e, some_left) (refl, refl)
  ]
]

Steps-IsClosed : (n : ℕ) {s t : GracefulShutdown} → Steps s t → IsClosed n s → IsClosed n t
Steps-IsClosed n stays c = c
Steps-IsClosed n (goes r st) c = Step-IsClosed n st (Steps-IsClosed n r c)

-- Once a shutdown was initiated, then whatever happens later: no request is let in, the number of
-- those that were stays, and to initiate it again changes nothing.
closed_for_good :
    (now later : ℕ) (s : GracefulShutdown) {t : GracefulShutdown}
    → Steps (initiate_shutdown now s) t
    → (enter t ≡ err server_is_shutting_down)
      × (t.request_counter ≡ s.request_counter)
      × (initiate_shutdown later t ≡ t)
unfolding enter initiate_shutdown
closed_for_good now later s {t = t} steps =
    let c = Steps-IsClosed s.request_counter steps (initiate-IsClosed now s) in
    (ground (arith, c.0), c.1, rw (initiate_shutdown, c.0) refl)

abbrev pub exit_all : List ℕ → GracefulShutdown → GracefulShutdown
exit_all [] s = s
exit_all (id ∷ ids) s = exit_all ids (exit id s)

exit_first :
    (id : ℕ) (ids : List ℕ) (s : GracefulShutdown)
    → s.active_requests ≡ id ∷ ids
    → ((exit id s).active_requests ≡ ids)
      × ((exit id s).phase ≡ s.phase)
      × (is_shutting_down s ≡ true → ids ≡ [] → (exit id s).drain_complete ≡ true)
unfolding exit discard
exit_first id ids s e = (ground arith, refl, λ c last. ground arith)

exit_all_drains :
    (id : ℕ) (ids : List ℕ) (s : GracefulShutdown)
    → is_shutting_down s ≡ true
    → s.active_requests ≡ id ∷ ids
    → let t = exit_all (id ∷ ids) s in (t.drain_complete ≡ true) × (t.active_requests ≡ [])
exit_all_drains id [] s c e = let first = exit_first id [] s e in (first.2 c refl, first.0)
exit_all_drains id (x ∷ xs) s c e =
    let first = exit_first id (x ∷ xs) s e in
    exit_all_drains x xs (exit id s) (ground (arith, first.1, c)) first.0

-- When requests are under way as a shutdown begins, it waits; when they have all ended, the latest
-- first, none is left and the event that ends the wait is set.
pub drain_completes :
    (id now : ℕ) (ids : List ℕ) (s : GracefulShutdown)
    → is_shutting_down s ≡ false
    → s.active_requests ≡ id ∷ ids
    → let s' = initiate_shutdown now s in
      (s'.at ≡ waiting_for_drain)
      × ((exit_all (id ∷ ids) s').drain_complete ≡ true)
      × ((exit_all (id ∷ ids) s').active_requests ≡ [])
unfolding initiate_shutdown
drain_completes id now ids s before some_left =
    let waits : initiate_shutdown now s ≡ record (started now s) { at = waiting_for_drain } =
      ground arith in
    let both =
      exit_all_drains id ids (record (started now s) { at = waiting_for_drain }) refl some_left in
    rw waits (refl, both.0, both.1)
