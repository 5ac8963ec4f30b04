-- ===== src/Breaker/Tests.antt =====
-- The breaker at concrete states.
use consentchain.Prelude.{ℕ, ◌≡◌, refl, some, List, [], ◌∷◌, arith, nat_eq}
use consentchain.Breaker.{
  opened, Breaker, Outcome, returned, timed_out, failed, timeout_after, new_breaker, default_config,
  fresh_stats, begin_call, finish_call, call,
}
use consentchain.Breaker.States.{
  Reach, created, next, begins, finishes, IsConsistent, Reach-IsConsistent,
}
use consentchain.Breaker.Runs.{Attempt, run}

abbrev attempt : ℕ → Outcome → Attempt
attempt at o = record { start = at; end = at; outcome = o }

-- Tripped at second 50, by a timeout.
abbrev tripped : Breaker
tripped = record {
  config = default_config;
  state = opened;
  stats = record (fresh_stats 0) {
    total_calls = 5;
    failed_calls = 5;
    consecutive_failures = 5;
    last_failure_time = some 50;
    last_failure_error = some (timeout_after 10);
    state_changed_at = 50;
  };
  half_open_successes = 0;
}

abbrev four_failures : List Attempt
four_failures =
    attempt 10 timed_out ∷ attempt 20 timed_out ∷ attempt 30 (failed 7) ∷ attempt 40 timed_out ∷ []

trips : run (attempt 50 timed_out ∷ []) (run four_failures (new_breaker default_config 0)) ≡ tripped
unfolding run new_breaker call begin_call finish_call
trips = refl

-- Two calls under way at once.
overlapping : Reach default_config 0 (record {
  breaker =
      (finish_call 4
        (returned 1)
        (begin_call 2 (begin_call 1 (new_breaker default_config 0)).0).0).0;
  under_way = 1;
  cancelled_calls = 0;
})
unfolding new_breaker begin_call
overlapping =
    next (next (next created (begins 1 _ refl)) (begins 2 _ refl))
      (finishes 4 1 (returned 1) _ refl)

Reach-IsConsistent_example : IsConsistent default_config (record {
  breaker =
      (finish_call 4
        (returned 1)
        (begin_call 2 (begin_call 1 (new_breaker default_config 0)).0).0).0;
  under_way = 1;
  cancelled_calls = 0;
})
Reach-IsConsistent_example = Reach-IsConsistent default_config 0 (omega arith) overlapping
