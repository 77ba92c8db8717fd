-- ===== src/EventBus/Bus.antt =====
-- eventbus.go: the bus that owns a client, a publisher and a consumer. Handlers are values of `H`.
pub mod Lifecycle
pub mod Consuming
pub mod Recovery
mod Examples
use rabbitmq_kit_go.Prelude.{
  ℕ, zero, suc, Bool, true, false, not, String, Option, none, some, List, [], ◌∷◌, if◌then◌else◌,
}
use mathlib.Core.Option
use rabbitmq_kit_go.Prelude.Int.{ℤ}
use rabbitmq_kit_go.Errors.{Error, nil, is_nil, sentinel, no_handlers_registered}
use rabbitmq_kit_go.CircuitBreaker.{CircuitBreaker, Metrics, get_metrics, reset}
use rabbitmq_kit_go.Config.{Config}
use rabbitmq_kit_go.Config.Options.{apply_options}
use rabbitmq_kit_go.Config.Validate.{validate}
use rabbitmq_kit_go.Router.{Router, new_router, handle}
use rabbitmq_kit_go.Broker.Client
use rabbitmq_kit_go.Broker.Client.{Client, Net, Dialing, Answer, connect}
use rabbitmq_kit_go.Broker.Publisher
use rabbitmq_kit_go.Broker.Publisher.{Publisher, View, new_publisher}
use rabbitmq_kit_go.Broker.Publisher.Channels.{Go, ok, and_then}
use rabbitmq_kit_go.Broker.Consumer.{new_breaker}
use rabbitmq_kit_go.Broker.Consumer.Workers.{Phase, consume}

-- `consumer` is `none` until the first `StartConsume`; of a consumer the bus keeps its breaker. The
-- routers are shared with the consumers, so a handler that is registered later counts too.
pub record EventBus (H : Type 0) : Type 0 where
  pub client : Client
  pub publisher : Publisher
  pub consumer : Option (Option CircuitBreaker)
  pub router : Option (Router H)
  pub dlq_router : Option (Router H)

-- The address of an AMQP channel, 0 for nil.
abbrev pub address : Option ℕ → ℕ
address none = 0
address (some x) = suc x

-- What the publisher reads of the client.
abbrev pub view : Client → View
view c = record {
  closed = c.closed;
  channel = address c.channel;
  publisher_confirms = c.config.publisher_confirms;
}

-- `broker.New`; starting `handleReconnect` is left out.
unfoldable pub new_client :
    {B : Type 0} → Answer B → Dialing → Config → Net B → (Error × Client) × Net B
new_client request d cfg n =
    connect request d (record { config = cfg; conn = none; channel = none; closed = false }) n

unfoldable pub is_connected : {B H : Type 0} → EventBus H → Net B → Bool
is_connected b n = Client.is_connected b.client n

-- The end of `NewEventBus`, with what `broker.New` returned: the error, and the bus without one.
unfoldable pub bus_on :
    {B H : Type 0} → Error → Client → Net B → (Error × Option (EventBus H)) × Net B
bus_on err client n = if not (is_nil err) then ((err, none), n) else (
  (
    nil,
    some (record {
      client = client;
      publisher = new_publisher (view client);
      consumer = none;
      router = none;
      dlq_router = none;
    }),
  ),
  n,
)

unfoldable pub new_event_bus :
    {B H : Type 0}
    → Answer B
    → Dialing
    → Config
    → List (Config → Config)
    → Net B
    → (Error × Option (EventBus H)) × Net B
unfolding bus_on
new_event_bus request d cfg opts n =
    let cfg' = record (apply_options opts cfg) { has_logger = true } in
    let invalid = validate cfg' in
    if not (is_nil invalid)
    then ((invalid, none), n)
    else (let ((err, client), n') = new_client request d cfg' n in bus_on err client n')

abbrev or_new_router : {H : Type 0} → Option (Router H) → Router H
or_new_router none = new_router
or_new_router (some r) = r

module _ {H : Type 0} where
  unfoldable pub register_handler : String → H → EventBus H → EventBus H
  register_handler event_type handler b = record b {
    router = some (handle event_type handler (or_new_router b.router));
  }

  unfoldable pub register_dlq_handler : String → H → EventBus H → EventBus H
  register_dlq_handler event_type handler b = record b {
    dlq_router = some (handle event_type handler (or_new_router b.dlq_router));
  }

  abbrev consumer_or_new : ℕ → EventBus H → Option CircuitBreaker
  consumer_or_new now b = elim b.consumer [
    | none ↦ new_breaker b.client.config now
    | some breaker ↦ breaker
  ]

  -- The error, the workers that are started, and the bus.
  unfoldable pub start_consume :
      (now : ℕ) → (refused : Error) → String → ℤ → EventBus H → (Error × List Phase) × EventBus H
  start_consume now refused queue workers b = elim b.router [
    | none ↦ ((sentinel no_handlers_registered, []), b)
    | some r ↦ (
      consume b.client refused queue workers,
      record b { consumer = some (consumer_or_new now b) },
    )
  ]

  -- A consumer of its own, whose breaker the bus does not keep.
  unfoldable pub start_consume_dlq :
      (now : ℕ)
      → (refused : Error) → String
      → ℤ
      → EventBus H
      → (Error × List Phase) × Option CircuitBreaker
  start_consume_dlq now refused queue workers b = elim b.dlq_router [
    | none ↦ ((sentinel no_handlers_registered, []), none)
    | some r ↦ (consume b.client refused queue workers, new_breaker b.client.config now)
  ]

  unfoldable pub get_circuit_breaker_metrics : EventBus H → Option Metrics
  get_circuit_breaker_metrics b = elim b.consumer [
    | none ↦ none
    | some breaker ↦ Option.map get_metrics breaker
  ]

  unfoldable pub reset_circuit_breaker : ℕ → EventBus H → Bool × EventBus H
  reset_circuit_breaker now b = elim b.consumer [
    | none ↦ (false, b)
    | some none ↦ (false, b)
    | some (some cb) ↦ (true, record b { consumer = some (some (reset now cb)) })
  ]

  -- `Close`: the publisher, then the client, whose result is always nil.
  unfoldable pub close : {B : Type 0} → EventBus H → Net B → Go (EventBus H × Net B)
  close b n = and_then (Publisher.close b.publisher) (λ publisher.
      let (client, n') = Client.close b.client n in
      ok (record b { publisher = publisher; client = client }, n'))
