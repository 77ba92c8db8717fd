-- ===== src/CircuitBreaker/Refinement.antt =====
-- What the breaker promises: an abstract machine whose states carry only what they need.
use rabbitmq_kit_go.Prelude.{
  ℕ, ◌+◌, ◌≡◌, refl, ◌∙◌, ap, Bool, true, List, [], ◌∷◌, arith, if◌then◌else◌, leb, ltb,
}
use rabbitmq_kit_go.Prelude.Int.{pos_part, leb_int, sub_time}
use rabbitmq_kit_go.CircuitBreaker.{
  closed, open_, half_open, Config, CircuitBreaker, Call, allow, success, failure, manual_reset,
  allow_request, step, run,
}
use rabbitmq_kit_go.CircuitBreaker.Invariant.{Inv, step-Inv}

-- Closed with the failures in a row; open since an instant; testing, with the requests that were
-- counted and the successes.
pub data Phase : Type 0 where
  passing : ℕ → Phase
  blocking : ℕ → Phase
  testing : ℕ → ℕ → Phase

-- Which requests pass.
abbrev pub passes : Config → ℕ → Phase → Bool
passes c now (passing n) = true
passes c now (blocking since) = leb_int c.reset_timeout (sub_time now since)
passes c now (testing n k) = ltb n (pos_part c.half_open_max_requests)

abbrev pub promised : Config → Call → Phase → Phase
promised c (allow now later) (passing n) = passing n
promised c (allow now later) (blocking since) =
    if leb_int c.reset_timeout (sub_time now since) then testing 0 0 else blocking since
promised c (allow now later) (testing n k) =
    if ltb n (pos_part c.half_open_max_requests) then testing (n + 1) k else testing n k
promised c (success now) (passing n) = passing 0
promised c (success now) (blocking since) = blocking since
promised c (success now) (testing n k) =
    if leb (pos_part c.half_open_max_requests) (k + 1) then passing 0 else testing n (k + 1)
promised c (failure now later) (passing n) =
    if leb (pos_part c.max_failures) (n + 1) then blocking later else passing (n + 1)
promised c (failure now later) (blocking since) = blocking since
promised c (failure now later) (testing n k) = blocking later
promised c (manual_reset now) p = passing 0

pub promised_run : Config → List Call → Phase → Phase
promised_run c [] p = p
promised_run c (x ∷ xs) p = promised_run c xs (promised c x p)

-- The phase that a state of the breaker stands for: counters that do not matter are forgotten.
abbrev pub phase : CircuitBreaker → Phase
phase cb = elim cb.state [
  | closed ↦ passing (pos_part cb.failures)
  | open_ ↦ blocking cb.last_state_change_time
  | half_open ↦ testing (pos_part cb.half_open_requests) (pos_part cb.successes)
]

phase-step :
    (c : Call) (cb : CircuitBreaker) → Inv cb → phase (step c cb) ≡ promised cb.config c (phase cb)
unfolding step
phase-step (allow now later) cb h = ground arith
phase-step (success now) cb h = ground arith
phase-step (failure now later) cb h = ground arith
phase-step (manual_reset now) cb h = ground arith

config-step : (c : Call) (cb : CircuitBreaker) → (step c cb).config ≡ cb.config
unfolding step
config-step (allow now later) cb = ground arith
config-step (success now) cb = ground arith
config-step (failure now later) cb = ground arith
config-step (manual_reset now) cb = ground arith

-- From a state that satisfies the invariant, any calls by any workers take the breaker through
-- exactly the phases of the abstract machine.
pub run-refines :
    (cs : List Call) (cb : CircuitBreaker)
    → Inv cb
    → phase (run cs cb) ≡ promised_run cb.config cs (phase cb)
unfolding run promised_run
run-refines [] cb h = refl
run-refines (c ∷ cs) cb h =
    run-refines cs (step c cb) (step-Inv c cb h)
    ∙ rw (config-step c cb) (ap (promised_run cb.config cs) (phase-step c cb h))

-- The answer of `AllowRequest` is that of the abstract machine.
pub allow_request-passes :
    (now later : ℕ) (cb : CircuitBreaker)
    → Inv cb
    → (allow_request now later cb).0 ≡ passes cb.config now (phase cb)
unfolding allow_request
allow_request-passes now later cb h = ground arith
