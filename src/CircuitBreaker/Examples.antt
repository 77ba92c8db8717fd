-- ===== src/CircuitBreaker/Examples.antt =====
-- Runs of the breaker, and the theorems at concrete inputs.
use rabbitmq_kit_go.Prelude.{◌≡◌, refl, true, false, List, [], ◌∷◌, arith}
use rabbitmq_kit_go.Prelude.Int.{pos, negsuc}
use rabbitmq_kit_go.CircuitBreaker.{
  closed, half_open, Config, Call, allow, success, failure, new, step, run,
}
use rabbitmq_kit_go.CircuitBreaker.Invariant.{Inv, new-Inv, run-Inv}
use rabbitmq_kit_go.CircuitBreaker.Trail.{Trail}
use rabbitmq_kit_go.CircuitBreaker.Timing.{admitted, admitted_after_timeout}
use rabbitmq_kit_go.CircuitBreaker.Refinement.{phase, promised_run, run-refines}

-- Two failures open it for 10 ns; two successes close it. The reset timeout is negative where the
-- default is wanted.
abbrev small : Config
small = record {
  max_failures = pos 2;
  reset_timeout = pos 10;
  half_open_max_requests = pos 2;
  has_callback = true;
}

abbrev unset : Config
unset = record small { reset_timeout = negsuc 4; has_callback = false }

abbrev tripping : List Call
tripping = allow 1 1 ∷ failure 2 2 ∷ failure 3 4 ∷ []

abbrev story : List Call
story = failure 2 2 ∷ failure 3 4 ∷ allow 9 9 ∷ allow 14 15 ∷ success 16 ∷ success 17 ∷ []

story_recovers : (run story (new small 0)).state ≡ closed
unfolding run step new
story_recovers = refl

probed_waits : (run (allow 14 15 ∷ []) (run tripping (new small 0))).state ≡ half_open
unfolding run step new
probed_waits = refl

fresh-Inv : Inv (new small 0)
fresh-Inv = new-Inv small 0 (omega arith) (omega arith) (omega arith)

run-Inv_example : Inv (run story (new unset 0))
run-Inv_example = run-Inv unset 0 story (omega arith) (omega arith) (omega arith)

-- A limit of two lets three of the four requests through.
admitted_after_timeout_example :
    admitted ((14, 15) ∷ (16, 16) ∷ (17, 17) ∷ (18, 18) ∷ []) (run tripping (new small 0)) ≡ 3
unfolding run step new
admitted_after_timeout_example =
    admitted_after_timeout (run tripping (new small 0)) 2 (14, 15)
      ((16, 16) ∷ (17, 17) ∷ (18, 18) ∷ []) refl refl (omega arith) refl

run-refines_example :
    phase (run story (new small 0)) ≡ promised_run small story (phase (new small 0))
unfolding new
run-refines_example = run-refines story (new small 0) fresh-Inv
