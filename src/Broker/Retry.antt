-- ===== src/Broker/Retry.antt =====
-- internal/broker/retry.go: whether and how a failed message is published again.
-- `S` is the state of the publisher, and `publish` its method: context, exchange, routing key and
-- message give an error and the new state. A header table is shared by all copies of a delivery,
-- so `retry` also returns the delivery with its table as it stands afterwards.
pub mod Laws
use rabbitmq_kit_go.Prelude.{ℕ, Bool, true, false, String, Option, none, some, [], if◌then◌else◌}
use rabbitmq_kit_go.Prelude.Int.{ℤ, leb_int, incr}
use rabbitmq_kit_go.Prelude.GoMap.{insert}
use rabbitmq_kit_go.Errors.{Error, sentinel, max_retries_exceeded}
use rabbitmq_kit_go.Amqp.{Value, int, Headers, Delivery, Publishing, persistent}
use rabbitmq_kit_go.Router.Message.{get_retry_count, count_header}

-- The type of `Publisher.Publish`: the context is part of what the caller fixes.
abbrev pub Publish : Type 0 → Type 0
Publish S = String → String → Publishing → S → Error × S

pub record Handler : Type 0 where
  pub max_retries : ℤ

unfoldable pub new_handler : ℤ → Handler
new_handler max_retries = record { max_retries = max_retries }

unfoldable pub should_retry : Handler → Delivery → Bool × ℤ
should_retry h d =
    let retry_count = get_retry_count d in
    if leb_int h.max_retries retry_count then (false, retry_count) else (true, retry_count)

-- The table with the count written in: a nil table is replaced by a new one.
abbrev pub or_new : Option Headers → Headers
or_new none = []
or_new (some t) = t

abbrev pub counted : ℤ → Delivery → Headers
counted n d = insert count_header (int n) (or_new d.headers)

abbrev pub republished : ℕ → ℤ → Delivery → Publishing
republished now n d = record {
  headers = some (counted n d);
  content_type = d.content_type;
  delivery_mode = persistent;
  priority = d.priority;
  correlation_id = d.correlation_id;
  reply_to = d.reply_to;
  expiration = d.expiration;
  message_id = d.message_id;
  timestamp = now;
  type = d.type;
  user_id = d.user_id;
  app_id = d.app_id;
  body = d.body;
}

-- Writing into a table that the delivery has is seen through the delivery; a new table is not.
abbrev pub shared_write : ℤ → Delivery → Delivery
shared_write n d = record d {
  headers = elim d.headers [ none ↦ none | some t ↦ some (counted n d) ];
}

unfoldable pub retry :
    {S : Type 0} → Publish S → ℕ → Handler → Delivery → S → (Error × Delivery) × S
unfolding should_retry
retry publish now h d s =
    let (again, retry_count) = should_retry h d in
    if again
    then (let n = incr retry_count in
        let (err, s') = publish d.exchange d.routing_key (republished now n d) s in
        ((err, shared_write n d), s'))
    else ((sentinel max_retries_exceeded, d), s)
