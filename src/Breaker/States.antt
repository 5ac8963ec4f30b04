-- ===== src/Breaker/States.antt =====
-- The breaker as a state machine: calls that overlap are interleavings of their two parts.
use consentchain.Prelude.{
  ℕ, ◌+◌, ◌<◌, ◌≡◌, ◌≢◌, refl, lookup, lookup-insert, nat_eq, none, some, arith,
}
use consentchain.Breaker.{
  CircuitState, closed, opened, half_open, Config, Breaker, Outcome, returned, timed_out, failed,
  cancelled, Error, new_breaker, begin_call, finish_call, reset, fresh_stats, Registry,
  get_or_create,
}

-- What the thresholds promise of a state: a closed breaker is below its failure threshold, a
-- half-open one below its success threshold.
abbrev pub BelowThreshold : CircuitState → Breaker → Type 0
BelowThreshold closed b = b.stats.consecutive_failures < b.failure_threshold
BelowThreshold half_open b = b.half_open_successes < b.success_threshold
BelowThreshold opened b = Unit {0}

abbrev pub Positive : Config → Type 0
Positive c = (0 < c.failure_threshold) × (0 < c.success_threshold)

-- A cancelled call counts as one.
abbrev pub cancellations : Outcome → ℕ
cancellations cancelled = 1
cancellations o = 0

-- A breaker with the calls that are under way, and those that were cancelled; a call that is refused
-- is neither.
pub record System : Type 0 where
  pub breaker : Breaker
  pub under_way : ℕ
  pub cancelled_calls : ℕ

pub data Step : System → System → Type 0 where
  begins :
      (now : ℕ) (s : System)
      → (begin_call now s.breaker).1 ≡ none
      → Step s (record s { breaker = (begin_call now s.breaker).0; under_way = s.under_way + 1 })
  refused :
      (now : ℕ) (s : System) {e : Error}
      → (begin_call now s.breaker).1 ≡ some e
      → Step s (record s { breaker = (begin_call now s.breaker).0 })
  finishes :
      (now n : ℕ) (o : Outcome) (s : System)
      → s.under_way ≡ n + 1
      → Step s (record {
        breaker = (finish_call now o s.breaker).0;
        under_way = n;
        cancelled_calls = s.cancelled_calls + cancellations o;
      })

pub data Reach (c : Config) (start : ℕ) : System → Type 0 where
  created :
      Reach c start (record { breaker = new_breaker c start; under_way = 0; cancelled_calls = 0 })
  next : {s t : System} → Reach c start s → Step s t → Reach c start t

pub record IsConsistent (c : Config) (s : System) : Type 0 where
  pub same_config : s.breaker.config ≡ c
  pub below : BelowThreshold s.breaker.state s.breaker
  pub accounted :
      s.breaker.stats.successful_calls + s.breaker.stats.failed_calls + s.under_way
        + s.cancelled_calls
      ≡ s.breaker.stats.total_calls

begin-IsConsistent :
    (c : Config) (now : ℕ) (s : System)
    → Positive c
    → (begin_call now s.breaker).1 ≡ none
    → IsConsistent c s
    → IsConsistent c
        (record s { breaker = (begin_call now s.breaker).0; under_way = s.under_way + 1 })
unfolding begin_call
begin-IsConsistent c now s pos admitted v = ground arith

finish-IsConsistent :
    (c : Config) (now n : ℕ) (o : Outcome) (s : System)
    → Positive c
    → s.under_way ≡ n + 1
    → IsConsistent c s
    → IsConsistent c (record {
      breaker = (finish_call now o s.breaker).0;
      under_way = n;
      cancelled_calls = s.cancelled_calls + cancellations o;
    })
unfolding finish_call
finish-IsConsistent c now n (returned x) s pos e v = ground arith
finish-IsConsistent c now n timed_out s pos e v = ground arith
finish-IsConsistent c now n (failed x) s pos e v = ground arith
finish-IsConsistent c now n cancelled s pos e v = ground arith

refused-IsConsistent :
    (c : Config) (now : ℕ) (s : System) {e : Error}
    → Positive c
    → (begin_call now s.breaker).1 ≡ some e
    → IsConsistent c s
    → IsConsistent c (record s { breaker = (begin_call now s.breaker).0 })
unfolding begin_call
refused-IsConsistent c now s pos refusal v = ground arith

new-IsConsistent :
    (c : Config) (start : ℕ)
    → Positive c
    → IsConsistent c (record { breaker = new_breaker c start; under_way = 0; cancelled_calls = 0 })
unfolding new_breaker
new-IsConsistent c start pos = ground arith

Step-IsConsistent :
    (c : Config) {s t : System} → Positive c → Step s t → IsConsistent c s → IsConsistent c t
Step-IsConsistent c pos (begins now s e) v = begin-IsConsistent c now s pos e v
Step-IsConsistent c pos (refused now s e) v = refused-IsConsistent c now s pos e v
Step-IsConsistent c pos (finishes now n o s e) v = finish-IsConsistent c now n o s pos e v

-- However calls overlap, with whatever outcomes and clock readings, from a new breaker with positive
-- thresholds: the configuration stays, a closed breaker is below its failure threshold and a
-- half-open one below its success threshold, and the calls that were let through are those that
-- succeeded, those that failed, those that are under way and those that were cancelled.
pub Reach-IsConsistent :
    (c : Config) (start : ℕ) {s : System} → Positive c → Reach c start s → IsConsistent c s
Reach-IsConsistent c start pos created = new-IsConsistent c start pos
Reach-IsConsistent c start pos (next r st) =
    Step-IsConsistent c pos st (Reach-IsConsistent c start pos r)

-- A reset closes the breaker at once, whatever its state, with all statistics at zero, and lets the
-- next call through.
reset_admits :
    (now later : ℕ) (b : Breaker)
    → let b' = reset now b in
      (b'.state ≡ closed)
      × (b'.stats ≡ fresh_stats now)
      × (b'.half_open_successes ≡ 0)
      × ((begin_call later b').1 ≡ none)
unfolding reset begin_call
reset_admits now later b = (refl, refl, refl, refl)

-- A name keeps its first breaker: the configuration of a later `get_or_create` plays no role, the
-- registry does not change, and other names keep theirs.
get_or_create_once :
    (name other : ℕ) (c c' : Config) (now now' : ℕ) (r : Registry)
    → name ≢ other
    → let r' = (get_or_create name c now r).0 in
      (get_or_create name c' now' r' ≡ (r', (get_or_create name c now r).1))
      × (lookup other r' ≡ lookup other r)
unfolding get_or_create
get_or_create_once name other c c' now now' r ne = ground (
  arith,
  lookup-insert name name (new_breaker c now) r,
  lookup-insert other name (new_breaker c now) r,
)
