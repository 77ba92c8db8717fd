-- ===== src/CircuitBreaker/Text.antt =====
-- The `String` methods of internal/circuitbreaker/circuitbreaker.go. The state of a breaker is always
-- one of the three, so that the default case of `State.String` has no counterpart.
use Prim.Native.String.{String, ◌++◌}
use rabbitmq_kit_go.Prelude.Decimal.{decimal_int}
use rabbitmq_kit_go.CircuitBreaker.{State, closed, open_, half_open, Metrics}

unfoldable pub state_text : State → String
state_text closed = "closed"
state_text open_ = "open"
state_text half_open = "half-open"

unfoldable pub metrics_text : Metrics → String
unfolding state_text
metrics_text m =
    "CircuitBreaker[state="
    ++ state_text m.state
    ++ ", failures="
    ++ decimal_int m.failures
    ++ ", successes="
    ++ decimal_int m.successes
    ++ ", halfOpen="
    ++ decimal_int m.half_open_requests
    ++ "]"
