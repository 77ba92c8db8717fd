-- ===== src/Broker/Consumer/Examples.antt =====
-- A worker's life with a breaker, and the theorems at concrete inputs.
use rabbitmq_kit_go.Prelude.{
  ℕ, ◌≡◌, refl, true, false, none, some, List, [], ◌∷◌, ◌++◌, arith, length, replicate,
  if◌then◌else◌, ◌==◌,
}
use rabbitmq_kit_go.Prelude.Int.{pos}
use rabbitmq_kit_go.Prelude.GoMap.{lookup}
use rabbitmq_kit_go.Errors.{Error, nil, foreign, is, is_expected_retry}
use rabbitmq_kit_go.Amqp.{int32, string, Delivery, Publishing}
use rabbitmq_kit_go.Router.{get_handler}
use rabbitmq_kit_go.Router.Message
use rabbitmq_kit_go.Router.Message.{get_type, get_retry_count}
use rabbitmq_kit_go.CircuitBreaker.{CircuitBreaker, half_open, open_}
use rabbitmq_kit_go.Broker.Retry.{Publish, retry}
use rabbitmq_kit_go.Broker.Retry.Laws.{attempts, attempts_lem}
use rabbitmq_kit_go.Broker.Consumer.{
  Settlement, ack, nack, Services, Consumer, Env, World, admit, received, with_trace_id,
  handle_delivery, work,
}
use rabbitmq_kit_go.Broker.Consumer.Settle.{Fate, settled_once}
use rabbitmq_kit_go.Broker.Consumer.Stall.{stalled, unknown_types_stall}

-- A publisher that collects what it is given.
abbrev collect : Publish (List Publishing)
collect exchange routing_key p s = (nil, p ∷ s)

abbrev timed_out : Error
timed_out = foreign "timed out" nil

-- Handlers are numbers: 0 succeeds, any other fails. The type of a message is "order" if its body
-- begins with 1, and "other" if not.
abbrev services : Services (List Publishing) ℕ
services = record {
  publish = collect;
  execute = λ h d s. (if h == 0 then nil else timed_out, s);
  settles = λ h d s. [];
  writes = λ h d s. d.headers;
  unmarshal_type =
      λ b. elim b [ [] ↦ none | x ∷ r ↦ (if x == 1 then some "order" else some "other") ];
  unmarshal_error = λ b. nil;
}

abbrev failing : Consumer ℕ
failing = record {
  router = record { handlers = ("order", 1) ∷ [] };
  retry_handler = record { max_retries = pos 3 };
}

abbrev order : Delivery
order = record {
  headers = some (("x-retry-count", int32 (pos 1)) ∷ ("trace_id", string "t") ∷ []);
  content_type = "application/json";
  delivery_mode = 2;
  priority = 0;
  correlation_id = "c";
  reply_to = "";
  expiration = "";
  message_id = "m";
  type = "";
  user_id = "";
  app_id = "";
  exchange = "orders";
  routing_key = "order.created";
  body = 1 ∷ [];
}

abbrev stranger : Delivery
stranger = record order { body = 2 ∷ [] }

abbrev at : ℕ → Env
at t = record {
  uuid = "u";
  allow_now = t;
  allow_later = t;
  failure_now = t;
  failure_later = t;
  success_now = t;
  retry_now = t;
  ack_error = nil;
}

abbrev plain : World (List Publishing)
plain = record { breaker = none; publisher = []; settled = []; by_handlers = []; lines = [] }

order_requeued :
    ((handle_delivery services failing (at 5) order plain).settled ≡ ack ∷ [])
    × (length (handle_delivery services failing (at 5) order plain).publisher ≡ 1)
unfolding handle_delivery get_type get_handler retry get_retry_count lookup is is_expected_retry
order_requeued = (refl, refl)

-- The handler of docs/DLQ.md, which acknowledges the delivery and returns what `Ack` returns.
abbrev acking : Services (List Publishing) ℕ
acking = record services { execute = λ h d s. (nil, s); settles = λ h d s. ack ∷ [] }

order_acked_twice :
    let w' = handle_delivery acking failing (at 5) order plain in
    (w'.settled ≡ ack ∷ []) × (w'.by_handlers ≡ ack ∷ [])
unfolding handle_delivery get_type get_handler lookup Message.get
order_acked_twice = (refl, refl)

settled_once_example :
    let d' = with_trace_id "u" order in
    let (ok, admitted) = admit (at 5) (received acking failing d' plain) in
    let w' = handle_delivery acking failing (at 5) order plain in
    (x : Settlement) × (own : List Settlement) × Fate acking failing (at 5) d' ok admitted x own
    × (w'.settled ≡ [] ++ x ∷ [])
    × (w'.by_handlers ≡ [] ++ own)
settled_once_example = settled_once acking failing (at 5) order plain

-- One attempt was made and two were left of the three retries, so three more follow.
attempts_lem_example : attempts 5 7 failing.retry_handler order ≡ 3
unfolding get_retry_count lookup
attempts_lem_example =
    attempts_lem 5 7 1 3 failing.retry_handler order refl refl (omega arith) (omega arith)
      (omega arith)

-- Open since 4, with a timeout of 10 and a limit of one trial request.
abbrev opened : CircuitBreaker
opened = record {
  config = record {
    max_failures = pos 1;
    reset_timeout = pos 10;
    half_open_max_requests = pos 1;
    has_callback = true;
  };
  state = open_;
  failures = pos 1;
  successes = pos 0;
  last_failure_time = 3;
  last_state_change_time = 4;
  half_open_requests = pos 0;
  changes = [];
}

abbrev guarded : World (List Publishing)
guarded = record plain { breaker = some opened }

abbrev full : CircuitBreaker
full = record opened { state = half_open; half_open_requests = pos 1 }

abbrev late : List (Env × Delivery)
late = (at 90, order) ∷ (at 91, order) ∷ []

abbrev strangers : List (Env × Delivery)
strangers = (at 20, stranger) ∷ (at 21, stranger) ∷ []

stalled_example :
    let w = record plain { breaker = some full } in
    ((work services failing late w).breaker ≡ some full)
    × ((work services failing late w).publisher ≡ [])
    × ((work services failing late w).settled ≡ nack false ∷ nack false ∷ [])
stalled_example =
    stalled services failing full 1 late (record plain { breaker = some full }) refl
      (record { state = refl; requests = refl; limit = refl })

unknown_types_stall_example :
    let w' = work services failing strangers guarded in
    ((work services failing late w').breaker ≡ w'.breaker)
    × ((work services failing late w').publisher ≡ w'.publisher)
    × ((work services failing late w').settled ≡ w'.settled ++ replicate 2 (nack false))
unfolding get_handler get_type lookup
unknown_types_stall_example =
    unknown_types_stall services failing opened 1 (at 20) stranger ((at 21, stranger) ∷ []) late
      guarded refl refl refl (omega arith) refl (refl, (refl, tt)) refl
