-- ===== src/Router/Examples.antt =====
-- Messages and their headers at concrete inputs.
use rabbitmq_kit_go.Prelude.{ℕ, ◌≡◌, refl, true, false, none, some, [], ◌∷◌}
use rabbitmq_kit_go.Prelude.Int.{pos, negsuc}
use rabbitmq_kit_go.Prelude.GoMap.{lookup, insert, delete}
use rabbitmq_kit_go.Amqp.{float64, fraction, empty, Headers, Delivery}
use rabbitmq_kit_go.Router.{new_router, handle, get_handler}
use rabbitmq_kit_go.Router.Message.{get_retry_count, int_of_float64}
use rabbitmq_kit_go.Router.Dlq.{new_dlq_message}
use rabbitmq_kit_go.Router.Laws.{Death, write_death, new_dlq_message-write_death}

abbrev bare : Delivery
bare = record {
  headers = none;
  content_type = "application/json";
  delivery_mode = 2;
  priority = 0;
  correlation_id = "";
  reply_to = "";
  expiration = "";
  message_id = "";
  type = "";
  user_id = "";
  app_id = "";
  exchange = "dlx.exchange";
  routing_key = "orders";
  body = [];
}

abbrev rejection : Death
rejection = record {
  queue = "orders.queue";
  exchange = "orders";
  routing_key = "order.created";
  reason = "rejected";
  count = pos 1;
  time_ = pos 1700000000;
}

abbrev dead_headers : Headers
dead_headers =
    ("x-retry-count", float64 (fraction false 7 1))
    ∷ ("x-death", write_death rejection empty empty)
    ∷ []

abbrev dead : Delivery
dead = record bare { headers = some dead_headers }

-- 7 / 2 retries, as a float, are 3; -7 / 2 are -3.
floats_cut :
    (get_retry_count dead ≡ pos 3)
    × (int_of_float64 (fraction true 7 1) ≡ negsuc 2)
    × (int_of_float64 (fraction true 1 1) ≡ pos 0)
unfolding get_retry_count lookup int_of_float64
floats_cut = (refl, refl, refl)

bare_counts : get_retry_count bare ≡ pos 0
unfolding get_retry_count
bare_counts = refl

new_dlq_message-write_death_example : new_dlq_message dead ≡ record {
  context = dead;
  original_queue = "orders.queue";
  original_exchange = "orders";
  original_routing_key = "order.created";
  retry_count = get_retry_count dead;
  death_reason = "rejected";
  death_count = pos 1;
  first_death_timestamp = pos 1700000000;
}
unfolding lookup
new_dlq_message-write_death_example =
    new_dlq_message-write_death dead dead_headers rejection empty empty refl refl

handled_last : get_handler "b" (handle {H = ℕ} "a" 2 (handle "a" 1 new_router)) ≡ none
unfolding new_router get_handler handle lookup insert delete
handled_last = refl
