-- ===== src/Broker/Consumer.antt =====
-- internal/broker/consumer.go: what a worker does with a delivery.
-- The code of others enters as parameters: `publish` is the publisher's method with its state
-- `S`, `execute` calls a user's handler, `unmarshal_type` and `unmarshal_error` are `json.Unmarshal`
-- into the struct with the field `type` and into a map. A handler may also tell the broker of its
-- delivery, and write its header table: `settles` and `writes`. Workers run at the same time; they
-- share the breaker, whose calls are atomic, and the publisher.
pub mod Told
pub mod Settle
pub mod Stall
pub mod Logged
pub mod Workers
mod Examples
use rabbitmq_kit_go.Prelude.{
  ℕ, Bool, true, false, not, String, Option, none, some, List, [], ◌∷◌, ◌++◌, if◌then◌else◌,
}
use mathlib.Core.Option
use rabbitmq_kit_go.Prelude.Int.{ℤ, pos, incr}
use rabbitmq_kit_go.Prelude.GoMap.{GoMap, lookup, insert}
use rabbitmq_kit_go.Errors.{Error, nil, is_nil, is, is_expected_retry, max_retries_exceeded}
use rabbitmq_kit_go.Amqp.{Value, string, Headers, Delivery, Publishing}
use rabbitmq_kit_go.Router.{Router, get_handler}
use rabbitmq_kit_go.Router.Message.{as_string, get, get_type, get_retry_count}
use rabbitmq_kit_go.CircuitBreaker
use rabbitmq_kit_go.CircuitBreaker.{
  CircuitBreaker, Metrics, allow_request, record_success, record_failure, get_metrics, reset,
}
use rabbitmq_kit_go.Config.{Config}
use rabbitmq_kit_go.Broker.Retry.{Publish, Handler, new_handler, or_new, retry}

pub data Level : Type 0 where
  debug info warn error : Level

-- A log line: its level, its text, and its field `retry_count` where it has one.
pub record Line : Type 0 where
  pub level : Level
  pub text : String
  pub retry_count : Option ℤ

-- What the broker is told of a delivery.
pub data Settlement : Type 0 where
  ack : Settlement
  nack : (requeue : Bool) → Settlement

-- What a worker reads from outside while it handles one delivery: a fresh UUID, the clock at each
-- of its calls, and what the acknowledgement after a success returns.
pub record Env : Type 0 where
  pub uuid : String
  pub allow_now : ℕ
  pub allow_later : ℕ
  pub failure_now : ℕ
  pub failure_later : ℕ
  pub success_now : ℕ
  pub retry_now : ℕ
  pub ack_error : Error

-- What the workers share and what they have done. `settled` is what the workers themselves tell the
-- broker, and `by_handlers` what the handlers do, by `Ack` and `Nack` of their message context.
pub record World (S : Type 0) : Type 0 where
  pub breaker : Option CircuitBreaker
  pub publisher : S
  pub settled : List Settlement
  pub by_handlers : List Settlement
  pub lines : List Line

-- The breaker that `NewConsumer` makes, if it is enabled; its callback logs.
unfoldable pub new_breaker : Config → ℕ → Option CircuitBreaker
new_breaker c now =
    if c.circuit_breaker_enabled
    then some (
        CircuitBreaker.new
          (record {
            max_failures = c.circuit_breaker_max_failures;
            reset_timeout = c.circuit_breaker_reset_timeout;
            half_open_max_requests = c.circuit_breaker_half_open_requests;
            has_callback = true;
          })
          now)
    else none

abbrev pub settle : {S : Type 0} → Settlement → World S → World S
settle x w = record w { settled = w.settled ++ x ∷ [] }

abbrev pub log : {S : Type 0} → Level → String → World S → World S
log l t w = record w {
  lines = w.lines ++ (record { level = l; text = t; retry_count = none }) ∷ [];
}

abbrev log_count : {S : Type 0} → Level → String → ℤ → World S → World S
log_count l t n w = record w {
  lines = w.lines ++ (record { level = l; text = t; retry_count = some n }) ∷ [];
}

-- A trace id that is missing, or is no string, is made up and written into the shared headers.
unfoldable pub with_trace_id : String → Delivery → Delivery
with_trace_id uuid d = elim (as_string (get "trace_id" d.headers)) [
  | some trace ↦ d
  | none ↦ record d { headers = some (insert "trace_id" (string uuid) (or_new d.headers)) }
]

-- `c.circuitBreaker != nil && !c.circuitBreaker.AllowRequest()`: whether to go on.
unfoldable pub admit : {S : Type 0} → Env → World S → Bool × World S
admit e w = elim w.breaker [
  | none ↦ (true, w)
  | some cb ↦
      let (ok, cb') = allow_request e.allow_now e.allow_later cb in
      (ok, record w { breaker = some cb' })
]

unfoldable pub on_failure : {S : Type 0} → Env → World S → World S
on_failure e w = record w {
  breaker = Option.map (record_failure e.failure_now e.failure_later) w.breaker;
}

unfoldable pub on_success : {S : Type 0} → Env → World S → World S
on_success e w = record w { breaker = Option.map (record_success e.success_now) w.breaker }

-- The switch on the error of `Retry`. `d` is the delivery with its headers as `Retry` left them.
unfoldable pub after_retry : {S : Type 0} → Error → Delivery → World S → World S
after_retry err d w =
    if is err max_retries_exceeded
    then settle (nack false)
        (log warn "Consumer Worker: Max retries exceeded, discarding message" w)
    else if not (is_nil err)
    then settle (nack false) (log error "Consumer Worker: Retry failed, nacking message" w)
    else settle ack
        (log_count debug "Consumer Worker: Message requeued for retry" (incr (get_retry_count d)) w)

-- The branch in which the handler returned nil.
unfoldable pub succeeded : {S : Type 0} → Env → World S → World S
unfolding on_success
succeeded e w =
    let acked = settle ack w in
    on_success e (
      if is_nil e.ack_error
      then acked
      else log error "Consumer Worker: Failed to ack message" acked)

-- The code of others that a worker calls. Of a call of a user's handler `execute` is the error and
-- what it does to the publisher, `settles` what it tells the broker of the delivery itself, and
-- `writes` the header table as it leaves it, which the context shares with the worker's delivery.
pub record Services (S H : Type 0) : Type 0 where
  pub publish : Publish S
  pub execute : H → Delivery → S → Error × S
  pub settles : H → Delivery → S → List Settlement
  pub writes : H → Delivery → S → Option Headers
  pub unmarshal_type : List ℕ → Option String
  pub unmarshal_error : List ℕ → Error

-- The fields that do not change; the breaker stands in `World`.
pub record Consumer (H : Type 0) : Type 0 where
  pub router : Router H
  pub retry_handler : Handler

module _ {S H : Type 0} (v : Services S H) where
  -- The delivery and the workers' world after the call of a handler.
  abbrev pub written : H → Delivery → S → Delivery
  written h d s = record d { headers = v.writes h d s }

  abbrev pub called : H → Delivery → World S → World S
  called h d w = record w {
    publisher = (v.execute h d w.publisher).1;
    by_handlers = w.by_handlers ++ v.settles h d w.publisher;
  }

module _ {S H : Type 0} (v : Services S H) (c : Consumer H) where
  -- The branch in which the handler returned an error.
  unfoldable pub failed : Error → Env → Delivery → World S → World S
  unfolding on_failure after_retry
  failed err e d w =
      let logged =
        (if is_expected_retry err
          then log warn "Consumer Worker: Handler error (expected, retrying)" w
          else log error "Consumer Worker: Handler error" w) in
      let counted = on_failure e logged in
      let ((retry_err, d'), s') = retry v.publish e.retry_now c.retry_handler d counted.publisher in
      after_retry retry_err d' (record counted { publisher = s' })

  -- The handler is called, and its result decides.
  unfoldable pub run_handler : H → Env → Delivery → World S → World S
  unfolding failed succeeded
  run_handler h e d w =
      let err = (v.execute h d w.publisher).0 in
      if not (is_nil err)
      then failed err e (written v h d w.publisher) (called v h d w)
      else succeeded e (called v h d w)

  -- The part behind the breaker.
  unfoldable pub process : Env → Delivery → World S → World S
  unfolding run_handler
  process e d w = elim (get_handler (get_type v.unmarshal_type d) c.router) [
    | some h ↦ run_handler h e d w
    | none ↦ settle ack (log error "Consumer Worker: No handler found for message type" w)
  ]

  -- Up to the breaker's answer: what is logged of every delivery.
  unfoldable pub received : Delivery → World S → World S
  received d w = log debug "Consumer Worker: Received event" (
      if is_nil (v.unmarshal_error d.body)
      then w
      else log error "Consumer Worker: Failed to unmarshal event body" w)

  -- The body of the worker's loop.
  unfoldable pub handle_delivery : Env → Delivery → World S → World S
  unfolding process admit with_trace_id received
  handle_delivery e delivery w =
      let d = with_trace_id e.uuid delivery in
      let (ok, admitted) = admit e (received d w) in
      if ok
      then process e d admitted
      else settle (nack false)
          (log warn "Consumer Worker: Circuit breaker is open, rejecting message" admitted)

  -- The deliveries in the order in which the workers take them, each handled as a whole.
  unfoldable pub work : List (Env × Delivery) → World S → World S
  work [] w = w
  work ((e, d) ∷ ds) w = work ds (handle_delivery e d w)

unfoldable pub get_circuit_breaker_metrics : {S : Type 0} → World S → Option Metrics
get_circuit_breaker_metrics w = Option.map get_metrics w.breaker

unfoldable pub reset_circuit_breaker : {S : Type 0} → ℕ → World S → Bool × World S
reset_circuit_breaker now w = elim w.breaker [
  | none ↦ (false, w)
  | some cb ↦ (true, record w { breaker = some (reset now cb) })
]
