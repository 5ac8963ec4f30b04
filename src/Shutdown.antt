-- ===== src/Shutdown.antt =====
-- Graceful shutdown, api/lifecycle/shutdown.py: the requests that are counted in and out, and the
-- coroutine `initiate_shutdown`, which stops at each of its awaits. Where it stands is `at`; the
-- handlers are numbers, and how the call of one ends is given to the step that runs it.
pub mod Steps
pub mod Invariant
pub mod Requests
mod Tests
use Prim.Native.String.{String}
use consentchain.Prelude.{
  ℕ, ◌+◌, Bool, true, false, not, Option, none, some, List, [], ◌∷◌, ◌++◌, eqb, if◌then◌else◌,
  length, get_elem?, Result, ok, err,
}

pub data ShutdownPhase : Type 0 where
  running shutdown_requested draining cleanup complete : ShutdownPhase

-- The texts that are kept of handlers that fail.
pub data HandlerError : Type 0 where
  handler_timeout : String → HandlerError
  handler_error : String → ℕ → HandlerError

pub record ShutdownStats : Type 0 where
  pub phase : ShutdownPhase
  pub shutdown_requested_at : Option ℕ
  pub completed_requests : ℕ
  pub cleanup_handlers_run : ℕ
  pub errors : List HandlerError

-- The await that `initiate_shutdown` is at: that of `_drain_requests`, or that of the handler with
-- an index in `_run_cleanup_handlers`.
pub data Place : Type 0 where
  not_started waiting_for_drain : Place
  at_handler : ℕ → Place
  returned : Place

pub record GracefulShutdown : Type 0 where
  pub stats : ShutdownStats
  pub open stats use *
  pub handlers : List (String × ℕ)
  pub active_requests : List ℕ
  pub request_counter : ℕ
  pub shutdown_event : Bool
  pub drain_complete : Bool
  pub at : Place

abbrev pub new_shutdown : GracefulShutdown
new_shutdown = record {
  stats = record {
    phase = running;
    shutdown_requested_at = none;
    completed_requests = 0;
    cleanup_handlers_run = 0;
    errors = [];
  };
  handlers = [];
  active_requests = [];
  request_counter = 0;
  shutdown_event = false;
  drain_complete = false;
  at = not_started;
}

abbrev pub is_shutting_down : GracefulShutdown → Bool
is_shutting_down s = elim s.phase [ running ↦ false | _ ↦ true ]

-- `set.discard`
unfoldable pub discard : ℕ → List ℕ → List ℕ
discard id [] = []
discard id (x ∷ xs) = let rest = discard id xs in if eqb x id then xs else x ∷ rest

abbrev pub is_empty : List ℕ → Bool
is_empty [] = true
is_empty (x ∷ xs) = false

unfoldable pub register_handler : String → ℕ → GracefulShutdown → GracefulShutdown
register_handler name handler s = record s { handlers = s.handlers ++ ((name, handler) ∷ []) }

pub data Error : Type 0 where
  server_is_shutting_down : Error

-- `RequestContext.__aenter__`; the counter makes the identifier a new one, so that adding it to the
-- set puts it in front.
unfoldable pub enter : GracefulShutdown → Result Error (GracefulShutdown × ℕ)
enter s =
    let id = s.request_counter + 1 in
    if is_shutting_down s
    then err server_is_shutting_down
    else ok (record s { request_counter = id; active_requests = id ∷ s.active_requests }, id)

-- `RequestContext.__aexit__`
unfoldable pub exit : ℕ → GracefulShutdown → GracefulShutdown
unfolding discard
exit id s =
    let rest = discard id s.active_requests in
    record s {
      active_requests = rest;
      stats = record (s.stats) { completed_requests = s.completed_requests + 1 };
      drain_complete =
          if is_shutting_down s
          then (if is_empty rest then true else s.drain_complete)
          else s.drain_complete;
    }

abbrev pub set_phase : ShutdownPhase → GracefulShutdown → GracefulShutdown
set_phase p s = record s { stats = record (s.stats) { phase = p } }

-- `_run_cleanup_handlers` goes on with the handler of an index, or `initiate_shutdown` ends. The
-- list may grow while it is gone through.
unfoldable pub go_to_handler : ℕ → GracefulShutdown → GracefulShutdown
go_to_handler i s = elim (get_elem? s.handlers i) [
  | none ↦ record (set_phase complete s) { at = returned }
  | some _ ↦ record s { at = at_handler i }
]

abbrev pub started : ℕ → GracefulShutdown → GracefulShutdown
started now s = record s {
  stats = record (s.stats) { phase = draining; shutdown_requested_at = some now };
  shutdown_event = true;
}

-- `initiate_shutdown` up to its first await, with `_drain_requests`.
unfoldable pub initiate_shutdown : ℕ → GracefulShutdown → GracefulShutdown
unfolding go_to_handler
initiate_shutdown now s =
    if is_shutting_down s
    then s
    else if is_empty s.active_requests
    then go_to_handler 0 (set_phase cleanup (started now s))
    else record (started now s) { at = waiting_for_drain }

-- The wait for the requests ends, by the event or by its timeout.
unfoldable pub end_drain : GracefulShutdown → GracefulShutdown
unfolding go_to_handler
end_drain s = go_to_handler 0 (set_phase cleanup s)

pub data HandlerOutcome : Type 0 where
  finished timed_out : HandlerOutcome
  failed : ℕ → HandlerOutcome

abbrev pub count_handler : String → HandlerOutcome → ShutdownStats → ShutdownStats
count_handler name finished st = record st { cleanup_handlers_run = st.cleanup_handlers_run + 1 }
count_handler name timed_out st = record st { errors = st.errors ++ (handler_timeout name ∷ []) }
count_handler name (failed e) st = record st { errors = st.errors ++ (handler_error name e ∷ []) }

-- One turn of the loop of `_run_cleanup_handlers`.
unfoldable pub end_handler : ℕ → String → HandlerOutcome → GracefulShutdown → GracefulShutdown
unfolding go_to_handler
end_handler i name o s = go_to_handler (i + 1) (record s { stats = count_handler name o s.stats })

-- The numbers of `get_stats`.
pub get_stats : GracefulShutdown → ShutdownStats × ℕ × ℕ
get_stats s = (s.stats, length s.active_requests, length s.handlers)
