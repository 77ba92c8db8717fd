-- ===== src/Router/Laws.antt =====
-- What a message tells of its retries and of its death.
use rabbitmq_kit_go.Prelude.{◌≡◌, String, some, if◌then◌else◌, str_eq}
use rabbitmq_kit_go.Prelude.Int.{ℤ}
use rabbitmq_kit_go.Prelude.GoMap.{lookup, lookup-insert}
use rabbitmq_kit_go.Amqp.{
  Value, Values, int64, string, time, array, table, item, end, field, Headers, Delivery, field_of,
}
use rabbitmq_kit_go.Router.{Router, handle, get_handler}
use rabbitmq_kit_go.Router.Message.{get, get_retry_count}
use rabbitmq_kit_go.Router.Dlq.{new_dlq_message}

-- A type has the handler that was registered for it last, and registering one type leaves the
-- others alone.
pub get_handler-handle :
    {H : Type 0} (k j : String) (h : H) (r : Router H)
    → get_handler j (handle k h r) ≡ (if str_eq k j then some h else get_handler j r)
unfolding get_handler handle
get_handler-handle k j h r = lookup-insert k j h r.handlers

-- The death record that RabbitMQ puts first in x-death.
pub record Death : Type 0 where
  pub queue : String
  pub exchange : String
  pub routing_key : String
  pub reason : String
  pub count : ℤ
  pub time_ : ℤ

-- As RabbitMQ writes it, with further routing keys and further deaths behind the first.
unfoldable pub write_death : Death → Values → Values → Value
write_death x keys older = array (
    item
      (table (
        field "count" (int64 x.count) (
          field "exchange" (string x.exchange) (
            field "queue" (string x.queue) (
              field "reason" (string x.reason) (
                field "routing-keys" (array (item (string x.routing_key) keys))
                  (field "time" (time x.time_) end)))))))
      older)

-- A header table in which RabbitMQ has written the death record gives it back in the fields of
-- the DLQ message, which keeps the delivery and its retry count.
pub new_dlq_message-write_death :
    (d : Delivery) (t : Headers) (x : Death) (keys older : Values)
    → d.headers ≡ some t
    → lookup "x-death" t ≡ some (write_death x keys older)
    → new_dlq_message d ≡ record {
      context = d;
      original_queue = x.queue;
      original_exchange = x.exchange;
      original_routing_key = x.routing_key;
      retry_count = get_retry_count d;
      death_reason = x.reason;
      death_count = x.count;
      first_death_timestamp = x.time_;
    }
unfolding new_dlq_message write_death field_of
new_dlq_message-write_death d t x keys older h e =
    let g : get "x-death" d.headers ≡ some (write_death x keys older) = unfold get in rw h e in
    simp (new_dlq_message, g)
