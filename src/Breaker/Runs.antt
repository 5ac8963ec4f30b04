-- ===== src/Breaker/Runs.antt =====
-- Calls one after another: when the breaker opens, fails fast, and closes again.
use consentchain.Prelude.{ℕ, ◌+◌, ◌<◌, ◌≤◌, ◌≡◌, refl, ◌∙◌, List, [], ◌∷◌, arith, err, length}
use consentchain.Breaker.{
  closed, opened, half_open, Breaker, Outcome, returned, timed_out, failed, cancelled,
  circuit_breaker_open, begin_call, finish_call, call,
}

-- A call: when it begins, when it ends, and how the protected function ends.
pub record Attempt : Type 0 where
  pub start : ℕ
  pub end : ℕ
  pub outcome : Outcome

abbrev pub after_call : Attempt → Breaker → Breaker
after_call a b = (call a.start a.end a.outcome b).0

unfoldable pub run : List Attempt → Breaker → Breaker
run [] b = b
run (a ∷ as') b = run as' (after_call a b)

abbrev pub Fails : Outcome → Type 0
Fails (returned v) = ⊥
Fails timed_out = Unit {0}
Fails (failed e) = Unit {0}
Fails cancelled = ⊥

abbrev pub Returns : Outcome → Type 0
Returns (returned v) = Unit {0}
Returns timed_out = ⊥
Returns (failed e) = ⊥
Returns cancelled = ⊥

abbrev pub Each : (Outcome → Type 0) → List Attempt → Type 0
Each P [] = Unit {0}
Each P (a ∷ as') = P a.outcome × Each P as'

-- A failing call on a closed breaker that stays below the threshold.
failure_counts :
    (start end : ℕ) (o : Outcome) (b : Breaker)
    → Fails o
    → b.state ≡ closed
    → b.stats.consecutive_failures + 1 < b.failure_threshold
    → let b' = (call start end o b).0 in
      (b'.state ≡ closed)
      × (b'.stats.consecutive_failures ≡ b.stats.consecutive_failures + 1)
      × (b'.config ≡ b.config)
unfolding call begin_call finish_call
failure_counts start end (returned v) b f cl below = absurd f
failure_counts start end timed_out b f cl below = ground arith
failure_counts start end (failed e) b f cl below = ground arith
failure_counts start end cancelled b f cl below = absurd f

failure_opens :
    (start end : ℕ) (o : Outcome) (b : Breaker)
    → Fails o
    → b.state ≡ closed
    → b.failure_threshold ≤ b.stats.consecutive_failures + 1
    → let b' = (call start end o b).0 in (b'.state ≡ opened) × (b'.stats.state_changed_at ≡ end)
unfolding call begin_call finish_call
failure_opens start end (returned v) b f cl above = absurd f
failure_opens start end timed_out b f cl above = ground arith
failure_opens start end (failed e) b f cl above = ground arith
failure_opens start end cancelled b f cl above = absurd f

run_below :
    (as' : List Attempt) (b : Breaker)
    → Each Fails as'
    → b.state ≡ closed
    → b.stats.consecutive_failures + length as' < b.failure_threshold
    → (run as' b).state ≡ closed
      × ((run as' b).stats.consecutive_failures ≡ b.stats.consecutive_failures + length as')
      × ((run as' b).config ≡ b.config)
unfolding run
run_below [] b f cl below = (cl, omega arith, refl)
run_below (a ∷ as') b f cl below =
    let (cl', count, same) = failure_counts a.start a.end a.outcome b f.0 cl (omega arith) in
    let b' = after_call a b in
    let ih = run_below as' b' f.1 cl' (ground arith) in (ih.0, omega arith, ih.2 ∙ same)

-- On a closed breaker, failing calls and timeouts count up: it stays closed as long as they are
-- fewer than its threshold, and the one that reaches the threshold opens it, at the end of that call.
threshold_opens :
    (as' : List Attempt) (a : Attempt) (b : Breaker)
    → Each Fails as'
    → Fails a.outcome
    → b.state ≡ closed
    → b.stats.consecutive_failures + length as' + 1 ≡ b.failure_threshold
    → let b' = run as' b in
      (b'.state ≡ closed)
      × ((after_call a b').state ≡ opened)
      × ((after_call a b').stats.state_changed_at ≡ a.end)
threshold_opens as' a b fs f cl reached =
    let (cl', count, same) = run_below as' b fs cl (omega arith) in
    let opens = failure_opens a.start a.end a.outcome (run as' b) f cl' (ground arith) in
    (cl', opens.0, opens.1)

-- While the recovery timeout of an open breaker has not passed, a call fails at once with the last
-- error, the outcome of the protected function plays no role, and the breaker does not change.
fails_fast :
    (start end : ℕ) (o : Outcome) (b : Breaker)
    → b.state ≡ opened
    → start < b.stats.state_changed_at + b.recovery_timeout
    → call start end o b ≡ (b, err (circuit_breaker_open b.stats.last_failure_error))
unfolding call begin_call
fails_fast start end o b op early = ground arith

-- A call that succeeds on a half-open breaker, or is the first after the timeout of an open one.
success_counts :
    (start end : ℕ) (o : Outcome) (b : Breaker)
    → Returns o
    → b.state ≡ half_open
    → b.half_open_successes + 1 < b.success_threshold
    → let b' = (call start end o b).0 in
      (b'.state ≡ half_open)
      × (b'.half_open_successes ≡ b.half_open_successes + 1)
      × (b'.config ≡ b.config)
unfolding call begin_call finish_call
success_counts start end (returned v) b r ho below = ground arith
success_counts start end timed_out b r ho below = absurd r
success_counts start end (failed e) b r ho below = absurd r
success_counts start end cancelled b r ho below = absurd r

success_closes :
    (start end : ℕ) (o : Outcome) (b : Breaker)
    → Returns o
    → b.state ≡ half_open
    → b.success_threshold ≤ b.half_open_successes + 1
    → let b' = (call start end o b).0 in (b'.state ≡ closed) × (b'.stats.consecutive_failures ≡ 0)
unfolding call begin_call finish_call
success_closes start end (returned v) b r ho above = ground arith
success_closes start end timed_out b r ho above = absurd r
success_closes start end (failed e) b r ho above = absurd r
success_closes start end cancelled b r ho above = absurd r

run_half_open :
    (as' : List Attempt) (b : Breaker)
    → Each Returns as'
    → b.state ≡ half_open
    → b.half_open_successes + length as' < b.success_threshold
    → (run as' b).state ≡ half_open
      × ((run as' b).half_open_successes ≡ b.half_open_successes + length as')
      × ((run as' b).config ≡ b.config)
unfolding run
run_half_open [] b f cl below = (cl, omega arith, refl)
run_half_open (a ∷ as') b f cl below =
    let (cl', count, same) = success_counts a.start a.end a.outcome b f.0 cl (omega arith) in
    let ih = run_half_open as' (after_call a b) f.1 cl' (ground arith) in
    (ih.0, omega arith, ih.2 ∙ same)

first_success :
    (start end : ℕ) (o : Outcome) (b : Breaker)
    → Returns o
    → b.state ≡ opened
    → b.stats.state_changed_at + b.recovery_timeout ≤ start
    → 1 < b.success_threshold
    → let b' = (call start end o b).0 in
      (b'.state ≡ half_open) × (b'.half_open_successes ≡ 1) × (b'.config ≡ b.config)
unfolding call begin_call finish_call
first_success start end (returned v) b r op late several = ground arith
first_success start end timed_out b r op late several = absurd r
first_success start end (failed e) b r op late several = absurd r
first_success start end cancelled b r op late several = absurd r

-- After the recovery timeout of an open breaker with a success threshold of at least two, successful
-- calls make it half-open, and the one that reaches the threshold closes it with no failures counted.
successes_close :
    (first : Attempt) (as' : List Attempt) (last : Attempt) (b : Breaker)
    → b.state ≡ opened
    → b.stats.state_changed_at + b.recovery_timeout ≤ first.start
    → Returns first.outcome
    → Each Returns as'
    → Returns last.outcome
    → length as' + 2 ≡ b.success_threshold
    → let b' = run as' (after_call first b) in
      (b'.state ≡ half_open)
      × ((after_call last b').state ≡ closed)
      × ((after_call last b').stats.consecutive_failures ≡ 0)
successes_close first as' last b op late r rs rl reached =
    let (ho, one, same) =
      first_success first.start first.end first.outcome b r op late (omega arith) in
    let (ho', count, same') = run_half_open as' (after_call first b) rs ho (ground arith) in
    let closes =
      success_closes last.start last.end last.outcome (run as' (after_call first b)) rl ho'
        (ground arith) in
    (ho', closes.0, closes.1)

-- If the first call after the recovery timeout fails, the breaker is open again, from the end of
-- that call on: it fails fast for another recovery timeout.
trial_failure_reopens :
    (start end later later' : ℕ) (o o' : Outcome) (b : Breaker)
    → b.state ≡ opened
    → b.stats.state_changed_at + b.recovery_timeout ≤ start
    → Fails o
    → later < end + b.recovery_timeout
    → let b' = (call start end o b).0 in
      (b'.state ≡ opened) × (b'.stats.state_changed_at ≡ end) × ((call later later' o' b').0 ≡ b')
unfolding call begin_call finish_call
trial_failure_reopens start end later later' (returned v) o' b op late f early = absurd f
trial_failure_reopens start end later later' timed_out o' b op late f early = ground arith
trial_failure_reopens start end later later' (failed e) o' b op late f early = ground arith
trial_failure_reopens start end later later' cancelled o' b op late f early = absurd f
