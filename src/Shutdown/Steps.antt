-- ===== src/Shutdown/Steps.antt =====
-- Shutdown as a state machine: requests come and go while the coroutine waits.
use Prim.Native.String.{String}
use consentchain.Prelude.{
  ℕ, ◌+◌, ◌≤◌, ◌<◌, ◌≡◌, ◌⊎◌, true, false, some, List, [], ◌∷◌, length, get_elem?, ok,
}
use consentchain.Shutdown.{
  running, draining, cleanup, complete, Place, not_started, waiting_for_drain, at_handler, returned,
  GracefulShutdown, HandlerOutcome, register_handler, enter, exit, initiate_shutdown, end_drain,
  end_handler,
}

abbrev pub IsIn : ℕ → List ℕ → Type 0
IsIn id [] = ⊥
IsIn id (x ∷ xs) = (x ≡ id) ⊎ IsIn id xs

pub data Step : GracefulShutdown → GracefulShutdown → Type 0 where
  registers :
      (name : String) (handler : ℕ) (s : GracefulShutdown)
      → Step s (register_handler name handler s)
  enters :
      (s : GracefulShutdown) {s' : GracefulShutdown} {id : ℕ} → enter s ≡ ok (s', id) → Step s s'
  exits : (id : ℕ) (s : GracefulShutdown) → IsIn id s.active_requests → Step s (exit id s)
  initiates : (now : ℕ) (s : GracefulShutdown) → Step s (initiate_shutdown now s)
  drains : (s : GracefulShutdown) → s.at ≡ waiting_for_drain → Step s (end_drain s)
  handles :
      (i : ℕ) (name : String) (handler : ℕ) (o : HandlerOutcome) (s : GracefulShutdown)
      → s.at ≡ at_handler i
      → get_elem? s.handlers i ≡ some (name, handler)
      → Step s (end_handler i name o s)

pub data Steps : GracefulShutdown → GracefulShutdown → Type 0 where
  stays : {s : GracefulShutdown} → Steps s s
  goes : {s t u : GracefulShutdown} → Steps s t → Step t u → Steps s u

-- The phase and the counts that go with a place of the coroutine.
abbrev pub Agrees : Place → GracefulShutdown → Type 0
Agrees not_started s =
    (s.phase ≡ running)
    × (s.cleanup_handlers_run + length s.errors ≡ 0)
    × (s.drain_complete ≡ false)
Agrees waiting_for_drain s = (s.phase ≡ draining) × (s.cleanup_handlers_run + length s.errors ≡ 0)
Agrees (at_handler i) s =
    (s.phase ≡ cleanup) × (s.cleanup_handlers_run + length s.errors ≡ i) × (i < length s.handlers)
Agrees returned s =
    (s.phase ≡ complete) × (s.cleanup_handlers_run + length s.errors ≤ length s.handlers)

pub record IsConsistent (s : GracefulShutdown) : Type 0 where
  pub counted : length s.active_requests + s.completed_requests ≡ s.request_counter
  pub agrees : Agrees s.at s
  pub drained : s.drain_complete ≡ true → s.active_requests ≡ []
