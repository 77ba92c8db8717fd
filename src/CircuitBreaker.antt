-- ===== src/CircuitBreaker.antt =====
-- internal/circuitbreaker/circuitbreaker.go and config.go: the circuit breaker of a consumer.
-- A method that mutates `*CircuitBreaker` returns the new record; each runs under `cb.mu`, so it
-- is one atomic step. A call of `time.Now` is an argument: nanoseconds of the monotonic clock.
-- The calls of `OnStateChange` are collected, in order, in the field `changes`.
pub mod Invariant
pub mod Trail
pub mod Timing
pub mod Text
pub mod Refinement
mod Examples
use rabbitmq_kit_go.Prelude.{ℕ, Bool, true, false, not, ◌&&◌, List, [], ◌∷◌, ◌++◌, if◌then◌else◌}
use rabbitmq_kit_go.Prelude.Int.{ℤ, pos, leb_int, ltb_int, incr, sub_time}

pub data State : Type 0 where
  closed open_ half_open : State

-- `has_callback` tells whether `OnStateChange` is set.
pub record Config : Type 0 where
  pub max_failures : ℤ
  pub reset_timeout : ℤ
  pub half_open_max_requests : ℤ
  pub has_callback : Bool

pub record CircuitBreaker : Type 0 where
  pub config : Config
  pub state : State
  pub failures : ℤ
  pub successes : ℤ
  pub last_failure_time : ℕ
  pub last_state_change_time : ℕ
  pub half_open_requests : ℤ
  pub changes : List (State × State)

abbrev pub default_config : Config
default_config = record {
  max_failures = pos 5;
  reset_timeout = pos 60000000000;
  half_open_max_requests = pos 3;
  has_callback = false;
}

-- A setting that is not positive gets its default.
abbrev or_default : ℤ → ℤ → ℤ
or_default x d = if leb_int x (pos 0) then d else x

unfoldable pub new : Config → ℕ → CircuitBreaker
new c now = record {
  config = record {
    max_failures = or_default c.max_failures (pos 5);
    reset_timeout = or_default c.reset_timeout (pos 60000000000);
    half_open_max_requests = or_default c.half_open_max_requests (pos 3);
    has_callback = c.has_callback;
  };
  state = closed;
  failures = pos 0;
  successes = pos 0;
  last_failure_time = 0;
  last_state_change_time = now;
  half_open_requests = pos 0;
  changes = [];
}

abbrev pub state_eq : State → State → Bool
state_eq closed closed = true
state_eq open_ open_ = true
state_eq half_open half_open = true
state_eq _ _ = false

-- The test `OnStateChange != nil && old != new`, and the call.
notify : Bool → State → State → List (State × State) → List (State × State)
notify has old new_ calls =
    if has && not (state_eq old new_) then calls ++ (old, new_) ∷ [] else calls

set_state : State → ℕ → CircuitBreaker → CircuitBreaker
unfolding notify
set_state s now cb = record cb {
  state = s;
  last_state_change_time = now;
  changes = notify cb.config.has_callback cb.state s cb.changes;
}

-- `now` is read at the start, `later` in `setState`.
allow_in : State → ℕ → ℕ → CircuitBreaker → Bool × CircuitBreaker
unfolding set_state
allow_in closed now later cb = (true, cb)
allow_in open_ now later cb =
    if leb_int cb.config.reset_timeout (sub_time now cb.last_state_change_time)
    then (
      true,
      record (set_state half_open later cb) {
        half_open_requests = pos 0;
        successes = pos 0;
        failures = pos 0;
      },
    )
    else (false, cb)
allow_in half_open now later cb =
    if ltb_int cb.half_open_requests cb.config.half_open_max_requests
    then (true, record cb { half_open_requests = incr cb.half_open_requests })
    else (false, cb)

unfoldable pub allow_request : ℕ → ℕ → CircuitBreaker → Bool × CircuitBreaker
unfolding allow_in
allow_request now later cb = allow_in cb.state now later cb

success_in : State → ℕ → CircuitBreaker → CircuitBreaker
unfolding set_state
success_in closed now cb = record cb { failures = pos 0 }
success_in half_open now cb =
    let counted = record cb { successes = incr cb.successes } in
    if leb_int cb.config.half_open_max_requests counted.successes
    then record (set_state closed now counted) {
      failures = pos 0;
      successes = pos 0;
      half_open_requests = pos 0;
    }
    else counted
success_in open_ now cb = cb

unfoldable pub record_success : ℕ → CircuitBreaker → CircuitBreaker
unfolding success_in
record_success now cb = success_in cb.state now cb

failure_in : State → ℕ → CircuitBreaker → CircuitBreaker
unfolding set_state
failure_in closed later cb =
    if leb_int cb.config.max_failures cb.failures then set_state open_ later cb else cb
failure_in half_open later cb = record (set_state open_ later cb) {
  half_open_requests = pos 0;
  successes = pos 0;
}
failure_in open_ later cb = cb

unfoldable pub record_failure : ℕ → ℕ → CircuitBreaker → CircuitBreaker
unfolding failure_in
record_failure now later cb =
    failure_in cb.state later (record cb { failures = incr cb.failures; last_failure_time = now })

-- `Reset` calls the callback itself, and not through `setState`.
unfoldable pub reset : ℕ → CircuitBreaker → CircuitBreaker
unfolding notify
reset now cb = record cb {
  state = closed;
  failures = pos 0;
  successes = pos 0;
  half_open_requests = pos 0;
  last_state_change_time = now;
  changes = notify cb.config.has_callback cb.state closed cb.changes;
}

unfoldable pub get_state : CircuitBreaker → State
get_state cb = cb.state

pub record Metrics : Type 0 where
  pub state : State
  pub failures : ℤ
  pub successes : ℤ
  pub half_open_requests : ℤ
  pub last_failure_time : ℕ
  pub last_state_change_time : ℕ

unfoldable pub get_metrics : CircuitBreaker → Metrics
get_metrics cb = record {
  state = cb.state;
  failures = cb.failures;
  successes = cb.successes;
  half_open_requests = cb.half_open_requests;
  last_failure_time = cb.last_failure_time;
  last_state_change_time = cb.last_state_change_time;
}

-- The calls that workers and operators make, each with its clock readings.
pub data Call : Type 0 where
  allow : ℕ → ℕ → Call
  success : ℕ → Call
  failure : ℕ → ℕ → Call
  manual_reset : ℕ → Call

unfoldable pub step : Call → CircuitBreaker → CircuitBreaker
unfolding allow_request record_success record_failure reset
step (allow now later) cb = (allow_request now later cb).1
step (success now) cb = record_success now cb
step (failure now later) cb = record_failure now later cb
step (manual_reset now) cb = reset now cb

-- The calls of all workers, in the order in which they hold the lock.
unfoldable pub run : List Call → CircuitBreaker → CircuitBreaker
run [] cb = cb
run (c ∷ cs) cb = run cs (step c cb)
