-- ===== src/EventBus/Requeue.antt =====
-- eventbus.go: putting messages of a dead letter queue back. `S` is the publisher's state, and
-- `publish` its method with the context fixed.
pub mod Message
pub mod Laws
pub mod Attempts
use rabbitmq_kit_go.Prelude.{
  ℕ, ◌+◌, Bool, true, false, not, ◌&&◌, ◌||◌, String, Option, none, some, List, [], ◌∷◌,
  if◌then◌else◌, str_eq,
}
use rabbitmq_kit_go.Prelude.Int.{ℤ, pos, leb_int, ltb_int}
use rabbitmq_kit_go.Prelude.GoMap.{insert, delete, copy}
use rabbitmq_kit_go.Errors.{Error, nil, is_nil, new_config_field_error, new_consume_error}
use rabbitmq_kit_go.Amqp.{int32, Headers, Delivery, Publishing, empty_publishing}
use rabbitmq_kit_go.Router.Dlq.{DlqMessage, new_dlq_message}
use rabbitmq_kit_go.Broker.Retry.{Publish, or_new}
use rabbitmq_kit_go.Broker.Consumer.{Settlement, ack, nack}

unfoldable pub requeued_headers : Bool → Option Headers → Headers
requeued_headers reset headers =
    let copied = copy (or_new headers) [] in
    delete "x-death" (if reset then insert "x-retry-count" (int32 (pos 0)) copied else copied)

abbrev pub requeued : ℕ → Bool → Delivery → Publishing
requeued now reset d = record empty_publishing {
  content_type = d.content_type;
  body = d.body;
  delivery_mode = d.delivery_mode;
  priority = d.priority;
  timestamp = now;
  headers = some (requeued_headers reset d.headers);
}

-- What one delivery of the queue finds: the context's error at that time and the clock.
pub record Arrival : Type 0 where
  pub delivery : Delivery
  pub cancelled : Error
  pub now : ℕ

-- How the stream of deliveries goes on after the last one: it is closed, or it stays open.
pub data Ending : Type 0 where
  closed : Ending
  waiting : Ending

pub data Outcome : Type 0 where
  returned : (count : ℕ) → (err : Error) → Outcome
  blocked : Outcome

module _ {S : Type 0} (publish : Publish S) where
  unfoldable pub requeue_from_dlq : ℕ → DlqMessage → Bool → S → Error × S
  requeue_from_dlq now m reset s =
      if str_eq m.original_exchange "" || str_eq m.original_routing_key ""
      then (new_config_field_error "DLQMessage" "missing original exchange or routing key", s)
      else publish m.original_exchange m.original_routing_key (requeued now reset m.context) s

  -- The loop over the deliveries: the settlements of those taken, in order. What `Ack` and `Nack`
  -- return is ignored.
  unfoldable pub requeue_loop :
      Bool → ℤ → List Arrival → Ending → ℕ → S → (Outcome × List Settlement) × S
  requeue_loop reset max [] closed n s = ((returned n nil, []), s)
  requeue_loop reset max [] waiting n s = ((blocked, []), s)
  requeue_loop reset max (a ∷ arrivals) ending n s =
      let (err, s') = requeue_from_dlq a.now (new_dlq_message a.delivery) reset s in
      let taken = is_nil err in
      let ((outcome, settled), end) =
        requeue_loop reset max arrivals ending (if taken then n + 1 else n) s' in
      if ltb_int (pos 0) max && leb_int max (pos n)
      then ((returned n nil, nack true ∷ []), s)
      else (if not (is_nil a.cancelled)
          then ((returned n a.cancelled, nack true ∷ []), s)
          else ((outcome, (if taken then ack else nack true) ∷ settled), end))

  -- The error of `GetChannel`, then that of `Consume`, come first.
  unfoldable pub requeue_all_from_dlq :
      (no_channel refused : Error)
      → String
      → Bool
      → ℤ
      → List Arrival
      → Ending
      → S
      → (Outcome × List Settlement) × S
  requeue_all_from_dlq no_channel refused dlq_name reset max arrivals ending s =
      if not (is_nil no_channel)
      then ((returned 0 no_channel, []), s)
      else (if not (is_nil refused)
          then ((returned 0 (new_consume_error dlq_name refused), []), s)
          else requeue_loop reset max arrivals ending 0 s)
