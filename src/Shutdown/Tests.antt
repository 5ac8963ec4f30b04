-- ===== src/Shutdown/Tests.antt =====
-- A shutdown with one handler and one request under way.
use consentchain.Prelude.{◌≡◌, refl, true, [], ◌∷◌, inl}
use consentchain.Shutdown.{
  waiting_for_drain, GracefulShutdown, finished, new_shutdown, register_handler, enter, exit,
  initiate_shutdown, end_drain, end_handler, go_to_handler,
}
use consentchain.Shutdown.Invariant.{Steps-IsConsistent}
use consentchain.Shutdown.Steps.{
  registers, enters, exits, initiates, drains, handles, Steps, stays, goes, IsConsistent,
}
use consentchain.Shutdown.Requests.{exit_all, drain_completes}

-- A handler is registered and a request let in.
abbrev busy : GracefulShutdown
busy = record new_shutdown {
  handlers = ("database", 1) ∷ [];
  active_requests = 1 ∷ [];
  request_counter = 1;
}

busy_reached : Steps new_shutdown busy
unfolding register_handler enter
busy_reached = goes (goes stays (registers "database" 1 _)) (enters _ refl)

-- The shutdown waits for the request, whose end lets it go on to its handler.
abbrev closed : GracefulShutdown
closed = end_handler 0 "database" finished (end_drain (exit 1 (initiate_shutdown 5 busy)))

shuts_down : Steps (initiate_shutdown 5 busy) closed
unfolding initiate_shutdown exit end_drain go_to_handler
shuts_down =
    goes (goes (goes stays (exits 1 _ (inl refl))) (drains _ refl))
      (handles 0 "database" 1 finished _ refl refl)

Steps-IsConsistent_example : IsConsistent (initiate_shutdown 5 busy)
Steps-IsConsistent_example = Steps-IsConsistent (goes busy_reached (initiates 5 busy))

drain_completes_example :
    let s' = initiate_shutdown 5 busy in
    (s'.at ≡ waiting_for_drain)
    × ((exit_all (1 ∷ []) s').drain_complete ≡ true)
    × ((exit_all (1 ∷ []) s').active_requests ≡ [])
drain_completes_example = drain_completes 1 5 [] busy refl refl
