-- ===== src/Breaker.antt =====
-- The circuit breaker of api/resilience/circuit_breaker.py. Times are instants in seconds, given
-- to each part of a call that reads the clock; errors are texts, kept as numbers. Two calls may be
-- under way at once: `begin_call` is what a call does up to the protected function, `finish_call`
-- what it does with the outcome.
pub mod States
pub mod Runs
mod Tests
use consentchain.Prelude.{
  ℕ, ◌+◌, ◌-◌, Bool, true, false, Option, none, some, List, [], ◌∷◌, leb, if◌then◌else◌, Dict,
  lookup, insert, contains, nat_eq, Result, ok, err,
}

-- `opened` is OPEN.
pub data CircuitState : Type 0 where
  closed opened half_open : CircuitState

-- The text of an error: "Timeout after {timeout}s", or that of an exception.
pub data ErrorText : Type 0 where
  timeout_after : ℕ → ErrorText
  message : ℕ → ErrorText

pub record CircuitStats : Type 0 where
  pub total_calls : ℕ
  pub successful_calls : ℕ
  pub failed_calls : ℕ
  pub consecutive_failures : ℕ
  pub last_failure_time : Option ℕ
  pub last_failure_error : Option ErrorText
  pub last_success_time : Option ℕ
  pub state_changed_at : ℕ

pub record Config : Type 0 where
  pub failure_threshold : ℕ
  pub recovery_timeout : ℕ
  pub success_threshold : ℕ
  pub timeout : ℕ

pub record Breaker : Type 0 where
  pub config : Config
  pub open config use *
  pub state : CircuitState
  pub stats : CircuitStats
  pub half_open_successes : ℕ

-- How the protected function ends. A cancellation of the call is no `Exception`: both handlers let it
-- pass.
pub data Outcome : Type 0 where
  returned : ℕ → Outcome
  timed_out : Outcome
  failed : ℕ → Outcome
  cancelled : Outcome

-- What `call` raises: its own two exceptions, the function's, or the cancellation.
pub data Error : Type 0 where
  circuit_breaker_open : Option ErrorText → Error
  circuit_breaker_timeout : Error
  raised : ℕ → Error
  cancelled_error : Error

abbrev pub fresh_stats : ℕ → CircuitStats
fresh_stats now = record {
  total_calls = 0;
  successful_calls = 0;
  failed_calls = 0;
  consecutive_failures = 0;
  last_failure_time = none;
  last_failure_error = none;
  last_success_time = none;
  state_changed_at = now;
}

pub new_breaker : Config → ℕ → Breaker
new_breaker c now = record {
  config = c;
  state = closed;
  stats = fresh_stats now;
  half_open_successes = 0;
}

-- The defaults of `__init__`.
abbrev pub default_config : Config
default_config = record {
  failure_threshold = 5;
  recovery_timeout = 30;
  success_threshold = 3;
  timeout = 10;
}

-- `_transition_to`; the callback's errors are caught, and it does not see the breaker.
transition_to : ℕ → CircuitState → Breaker → Breaker
transition_to now closed b = record b {
  state = closed;
  stats = record (b.stats) { state_changed_at = now; consecutive_failures = 0 };
  half_open_successes = 0;
}
transition_to now half_open b = record b {
  state = half_open;
  stats = record (b.stats) { state_changed_at = now };
  half_open_successes = 0;
}
transition_to now opened b = record b {
  state = opened;
  stats = record (b.stats) { state_changed_at = now };
}

-- `_check_state_transition`
check_state_transition : ℕ → Breaker → Breaker
unfolding transition_to
check_state_transition now b = elim b.state [
  | opened ↦
      if leb (b.stats.state_changed_at + b.recovery_timeout) now
      then transition_to now half_open b
      else b
  | _ ↦ b
]

-- `_record_success`
record_success : ℕ → Breaker → Breaker
unfolding transition_to
record_success now b =
    let stats' = record (b.stats) {
      successful_calls = b.stats.successful_calls + 1;
      consecutive_failures = 0;
      last_success_time = some now;
    } in
    let counted = record b { stats = stats'; half_open_successes = b.half_open_successes + 1 } in
    elim b.state [
      | half_open ↦
          if leb b.success_threshold (b.half_open_successes + 1)
          then transition_to now closed counted
          else counted
      | _ ↦ record b { stats = stats' }
    ]

-- `_record_failure`
record_failure : ℕ → ErrorText → Breaker → Breaker
unfolding transition_to
record_failure now error b =
    let b' = record b {
      stats = record (b.stats) {
        failed_calls = b.stats.failed_calls + 1;
        consecutive_failures = b.stats.consecutive_failures + 1;
        last_failure_time = some now;
        last_failure_error = some error;
      };
    } in
    elim b.state [
      | half_open ↦ transition_to now opened b'
      | closed ↦
          if leb b.failure_threshold (b.stats.consecutive_failures + 1)
          then transition_to now opened b'
          else b'
      | opened ↦ b'
    ]

-- `call` up to the protected function: it is made, or the call fails fast.
pub begin_call : ℕ → Breaker → Breaker × Option Error
unfolding check_state_transition
begin_call now b =
    let b' = check_state_transition now b in
    let made = record b' { stats = record (b'.stats) { total_calls = b'.stats.total_calls + 1 } } in
    elim b'.state [
      | opened ↦ (b', some (circuit_breaker_open b'.stats.last_failure_error))
      | _ ↦ (made, none)
    ]

-- `call` from the outcome of the protected function on.
pub finish_call : ℕ → Outcome → Breaker → Breaker × Result Error ℕ
unfolding record_success record_failure
finish_call now (returned v) b = (record_success now b, ok v)
finish_call now timed_out b =
    (record_failure now (timeout_after b.timeout) b, err circuit_breaker_timeout)
finish_call now (failed e) b = (record_failure now (message e) b, err (raised e))
finish_call now cancelled b = (b, err cancelled_error)

-- A call with nothing between its two parts.
pub call : ℕ → ℕ → Outcome → Breaker → Breaker × Result Error ℕ
call start end outcome b =
    let (b', refused) = begin_call start b in
    elim refused [ some e ↦ (b', err e) | none ↦ finish_call end outcome b' ]

pub reset : ℕ → Breaker → Breaker
unfolding transition_to
reset now b = record (transition_to now closed b) { stats = fresh_stats now }

-- `CircuitBreakerRegistry`: breakers by name.
abbrev pub Registry : Type 0
Registry = Dict ℕ Breaker

pub get_or_create : ℕ → Config → ℕ → Registry → Registry × Option Breaker
unfolding new_breaker
get_or_create name c now r =
    let r' = if contains name r then r else insert name (new_breaker c now) r in
    (r', lookup name r')

reset_all : ℕ → Registry → Registry
unfolding reset
reset_all now [] = []
reset_all now ((name, b) ∷ r) = (name, reset now b) ∷ reset_all now r
