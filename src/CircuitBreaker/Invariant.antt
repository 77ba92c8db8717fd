-- ===== src/CircuitBreaker/Invariant.antt =====
-- What holds of the breaker between two calls.
use rabbitmq_kit_go.Prelude.{ℕ, ◌≤◌, ◌<◌, ◌≡◌, List, [], ◌∷◌, arith}
use rabbitmq_kit_go.Prelude.Int.{ℤ, pos, negsuc, max_int}
use rabbitmq_kit_go.CircuitBreaker.{
  closed, open_, half_open, Config, CircuitBreaker, Call, allow, success, failure, manual_reset,
  new, step, run,
}

-- The number fits Go's int.
abbrev pub IsInt : ℤ → Type 0
IsInt (pos n) = n ≤ max_int
IsInt (negsuc n) = n ≤ max_int

-- The int is at least 1.
abbrev pub IsPositive : ℤ → Type 0
IsPositive (pos n) = 0 < n × n ≤ max_int
IsPositive (negsuc n) = ⊥

-- 0 <= a < b
abbrev pub IsBelow : ℤ → ℤ → Type 0
IsBelow (pos a) (pos b) = a < b
IsBelow _ _ = ⊥

-- 0 <= a <= b
abbrev pub IsUpTo : ℤ → ℤ → Type 0
IsUpTo (pos a) (pos b) = a ≤ b
IsUpTo _ _ = ⊥

pub record Inv (cb : CircuitBreaker) : Type 0 where
  pub max_failures_pos : IsPositive cb.config.max_failures
  pub reset_timeout_pos : IsPositive cb.config.reset_timeout
  pub half_open_max_pos : IsPositive cb.config.half_open_max_requests
  pub closed_failures : cb.state ≡ closed → IsBelow cb.failures cb.config.max_failures
  pub half_open_failures : cb.state ≡ half_open → cb.failures ≡ pos 0
  pub successes_below : IsBelow cb.successes cb.config.half_open_max_requests
  pub requests_up_to : IsUpTo cb.half_open_requests cb.config.half_open_max_requests
  pub idle_successes : cb.state ≡ open_ → cb.successes ≡ pos 0
  pub idle_requests : cb.state ≡ open_ → cb.half_open_requests ≡ pos 0
  pub closed_successes : cb.state ≡ closed → cb.successes ≡ pos 0
  pub closed_requests : cb.state ≡ closed → cb.half_open_requests ≡ pos 0

pub step-Inv : (c : Call) (cb : CircuitBreaker) → Inv cb → Inv (step c cb)
unfolding step
step-Inv (allow now later) cb h = ground arith
step-Inv (success now) cb h = ground arith
step-Inv (failure now later) cb h = ground arith
step-Inv (manual_reset now) cb h = ground arith

pub new-Inv :
    (c : Config) (now : ℕ)
    → IsInt c.max_failures
    → IsInt c.reset_timeout
    → IsInt c.half_open_max_requests
    → Inv (new c now)
unfolding new
new-Inv c now f r h = ground arith

pub run-Inv_from : (cs : List Call) (cb : CircuitBreaker) → Inv cb → Inv (run cs cb)
unfolding run
run-Inv_from [] cb h = h
run-Inv_from (c ∷ cs) cb h = run-Inv_from cs (step c cb) (step-Inv c cb h)

-- Whatever the configuration within Go's int, after any calls by any workers the settings are
-- positive, the counters lie in the range of their limits, and each state has its own counters:
-- in the closed state fewer failures than the limit, in the open state no successes or requests.
pub run-Inv :
    (c : Config) (now : ℕ) (cs : List Call)
    → IsInt c.max_failures
    → IsInt c.reset_timeout
    → IsInt c.half_open_max_requests
    → Inv (run cs (new c now))
run-Inv c now cs f r h = run-Inv_from cs (new c now) (new-Inv c now f r h)
