-- ===== src/EventBus/Bus/Examples.antt =====
-- The life of a bus at concrete inputs.
use rabbitmq_kit_go.Prelude.{ℕ, ◌≡◌, refl, inr, true, false, none, some, List, [], ◌∷◌}
use rabbitmq_kit_go.Prelude.Int.{pos}
use rabbitmq_kit_go.Errors.{nil, sentinel, client_closed}
use rabbitmq_kit_go.Amqp.{Publishing, empty_publishing}
use rabbitmq_kit_go.Config.{default_config}
use rabbitmq_kit_go.Config.Options.{with_publisher_confirms, apply_options}
use rabbitmq_kit_go.Broker.Retry.{Publish}
use rabbitmq_kit_go.Broker.Client.{Answer, Client, Net, Dialing, Request, connect, get_channel}
use rabbitmq_kit_go.Broker.Client
use rabbitmq_kit_go.Broker.Client.Connect.{Opens}
use rabbitmq_kit_go.Broker.Publisher.{Publisher, new_publisher, publish, confirm, received}
use rabbitmq_kit_go.Broker.Publisher.Channels.{ok, find}
use rabbitmq_kit_go.Broker.Publisher.Sound.{Waiting}
use rabbitmq_kit_go.Broker.Publisher.Steps.{IsSound}
use rabbitmq_kit_go.EventBus.Bus.Recovery.{published_after_reconnect}
use rabbitmq_kit_go.Broker.Consumer.Workers.{consume}
use rabbitmq_kit_go.EventBus.Bus.{EventBus, view, is_connected, new_event_bus, close}
use rabbitmq_kit_go.EventBus.Bus.Lifecycle.{Made, new_event_bus-Made, closed_bus}
use rabbitmq_kit_go.EventBus.Bus.Consuming.{Op, handler, start, reset_breaker}

abbrev accepts : Answer (List Request)
accepts r b = (nil, r ∷ b)

abbrev net : Net (List Request)
net = record { next = 4; open_conns = 3 ∷ []; open_channels = 3 ∷ []; heap = []; broker = [] }

abbrev dialing : Dialing
dialing = record { dial = nil; open_channel = nil; qos = nil; confirm = nil }

new_event_bus-Made_example :
    let ((err, bus), n') =
      new_event_bus {H = ℕ} accepts dialing default_config
        (with_publisher_confirms true ∷ [])
        net in
    Made (record default_config { publisher_confirms = true; has_logger = true }) 4 err bus n'
    × Opens err net n'
unfolding apply_options
new_event_bus-Made_example =
    new_event_bus-Made accepts ℕ dialing default_config (with_publisher_confirms true ∷ []) net
      (refl, tt) (refl, tt)

abbrev client : Client
client = record {
  config = record default_config { publisher_confirms = true };
  conn = some 3;
  channel = some 3;
  closed = false;
}

abbrev bus : EventBus ℕ
bus = record {
  client = client;
  publisher = new_publisher (view client);
  consumer = none;
  router = none;
  dlq_router = none;
}

abbrev collect : Publish (List Publishing)
collect exchange routing_key p s = (nil, p ∷ s)

closed_bus_example :
    (b' : EventBus ℕ) × (n' : Net (List Request)) × (close bus net ≡ ok (b', n'))
    × (close b' n' ≡ ok (b', n'))
    × (Client.is_connected b'.client n' ≡ false)
    × (get_channel b'.client ≡ (sentinel client_closed, none))
    × (consume b'.client nil "orders" (pos 2) ≡ (sentinel client_closed, []))
    × (publish collect ok
          (view b'.client)
          4
          received
          "orders"
          "order.created"
          empty_publishing
          []
          b'.publisher
        ≡ ok ((sentinel client_closed, b'.publisher), []))
unfolding new_publisher
closed_bus_example =
    closed_bus collect ok bus net nil "orders" (pos 2) 4 received "orders" "order.created"
      empty_publishing [] refl (inr (record { started = refl; done = refl })) refl

abbrev ops : List (Op ℕ)
ops =
    start 1 nil "orders" (pos 2)
    ∷ handler "order" 0
    ∷ start 2 nil "orders" (pos 2)
    ∷ reset_breaker 3
    ∷ []

published_after_reconnect_example :
    let ((err, client'), n') = connect accepts dialing client net in
    let v = view client' in
    (is_connected (record bus { client = client' }) n' ≡ true)
    × ((p' : Publisher) × (publish collect
            (confirm 1 true)
            v
            v.channel
            received
            "orders"
            "order.created"
            empty_publishing
            []
            bus.publisher
          ≡ ok ((nil, p'), empty_publishing ∷ []))
        × (find 1 p'.pending ≡ none))
unfolding new_publisher connect Client.setup_topology default_config Client.declare_exchanges
    Client.declare_queues
published_after_reconnect_example =
    published_after_reconnect accepts collect dialing bus net true "orders" "order.created"
      empty_publishing [] refl refl (unfold IsSound Waiting in tt)
      (record { started = refl; done = refl }) (refl, tt) (refl, tt) refl refl refl
