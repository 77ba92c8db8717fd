-- ===== src/Broker/Publisher/Examples.antt =====
-- A publisher's goroutines at concrete inputs.
use rabbitmq_kit_go.Prelude.{◌≡◌, refl, true, false, none, List, [], ◌∷◌}
use rabbitmq_kit_go.Errors.{nil, sentinel, publish_not_confirmed}
use rabbitmq_kit_go.Amqp.{Publishing, empty_publishing}
use rabbitmq_kit_go.Broker.Retry.{Publish}
use rabbitmq_kit_go.Broker.Publisher.{
  Publisher, PublishMessage, View, received, new_publisher, ensure_confirms_setup, close, register,
  confirm, confirms_closed, drop_failed, publish,
}
use rabbitmq_kit_go.Broker.Publisher.Channels.{ok, panic, and_then, open_, find, remove}
use rabbitmq_kit_go.Broker.Publisher.Sound.{Waiting}
use rabbitmq_kit_go.Broker.Publisher.Steps.{registered, run, IsSound, drop_failed_panics}
use rabbitmq_kit_go.Broker.Publisher.Setup.{
  IsReady, ensure_confirms_setup-Ready, close_then_reset_panics, publish_confirmed,
}

-- The AMQP channel collects what it is given.
abbrev collect : Publish (List Publishing)
collect exchange routing_key p s = (nil, p ∷ s)

abbrev view : View
view = record { closed = false; channel = 7; publisher_confirms = true }

abbrev plain_view : View
plain_view = record view { publisher_confirms = false }

-- Two messages wait on the first channel.
abbrev busy : Publisher
busy = record {
  pending = (2, 1) ∷ (1, 0) ∷ [];
  results = open_ none ∷ open_ none ∷ [];
  delivery_tag = 2;
  done = 0;
  dones = false ∷ [];
  started = true;
  channel_id = 7;
}

abbrev reconnected : View
reconnected = record view { channel = 8 }

busy_reached : run (registered ∷ registered ∷ []) (new_publisher view) ≡ ok busy
unfolding run new_publisher register remove
busy_reached = refl

busy-Sound : IsSound busy
unfolding IsSound Waiting
busy-Sound = (refl, (refl, tt), (refl, tt, tt))

busy-Ready : IsReady busy
busy-Ready = record { started = refl; done = refl }

drop_failed_panics_example :
    and_then
      (confirms_closed (register busy).1)
      (drop_failed (register busy).0.0 (register busy).0.1)
    ≡ panic
drop_failed_panics_example = drop_failed_panics busy busy-Sound

ensure_confirms_setup-Ready_example :
    (p' : Publisher) × (ensure_confirms_setup reconnected 8 busy ≡ ok p')
    × IsReady p'
    × IsSound p'
    × (p'.pending ≡ [])
    × (p'.delivery_tag ≡ 0)
ensure_confirms_setup-Ready_example =
    ensure_confirms_setup-Ready reconnected 8 busy busy-Sound busy-Ready refl

close_then_reset_panics_example :
    and_then (close busy) (ensure_confirms_setup reconnected 8) ≡ panic
close_then_reset_panics_example =
    close_then_reset_panics reconnected 8 busy busy-Sound busy-Ready refl

publish_confirmed_example :
    (p' : Publisher) × (publish collect
        (confirm (register busy).0.0 false)
        view
        7
        received
        "orders"
        "order.created"
        empty_publishing
        []
        busy
      ≡ ok ((sentinel publish_not_confirmed, p'), empty_publishing ∷ []))
    × (find (register busy).0.0 p'.pending ≡ none)
publish_confirmed_example =
    publish_confirmed collect view 7 false "orders" "order.created" empty_publishing [] busy
      busy-Sound refl refl refl refl refl

abbrev message : PublishMessage
message = record { exchange = "orders"; routing_key = "order.created"; message = empty_publishing }
