-- ===== src/Broker/Consumer/Workers.antt =====
-- internal/broker/consumer.go: the workers of `Consume`, interleaved. They take deliveries from one
-- channel, and share the breaker and the publisher. A turn is what a worker does up to its next use
-- of something shared: the channel, the breaker, the publisher or the acknowledgement.
pub mod Interleave
pub mod Runs
pub mod Alone
pub mod Ending
pub mod Budget
pub mod Manned
pub mod Rounds
mod Examples
use rabbitmq_kit_go.Prelude.{
  ℕ, zero, suc, ◌+◌, Bool, true, false, not, Option, none, some, List, [], ◌∷◌, String, replicate,
  set_at, length, get_elem?, if◌then◌else◌,
}
use rabbitmq_kit_go.Errors.{
  Error, nil, is_nil, is_expected_retry, sentinel, client_closed, no_channel, new_consume_error,
}
use rabbitmq_kit_go.Amqp.{Delivery}
use rabbitmq_kit_go.Router.{get_handler}
use rabbitmq_kit_go.Router.Message.{get_type}
use rabbitmq_kit_go.Broker.Retry.{retry}
use rabbitmq_kit_go.Broker.Consumer.{
  nack, ack, error, warn, Services, Consumer, Env, World, settle, log, with_trace_id, received,
  admit, on_failure, on_success, after_retry, written, called,
}
use rabbitmq_kit_go.Prelude.Int.{ℤ, pos_part}
use rabbitmq_kit_go.Broker.Client.{Client}

-- Where a worker stands: at the head of its loop; with a delivery, before the breaker; past the
-- breaker; with a handler's error, before `RecordFailure`; before `Retry`; with the result of
-- `Retry`; or with a success acknowledged, before `RecordSuccess`.
pub data Phase : Type 0 where
  idle : Phase
  taken : Delivery → Phase
  admitted : Delivery → Phase
  failing : Delivery → Phase
  retrying : Delivery → Phase
  retried : Error → Delivery → Phase
  acked : Phase

abbrev log_failure : {S : Type 0} → Error → World S → World S
log_failure err w =
    if is_expected_retry err
    then log warn "Consumer Worker: Handler error (expected, retrying)" w
    else log error "Consumer Worker: Handler error" w

abbrev ack_success : {S : Type 0} → Env → World S → World S
ack_success e w =
    if is_nil e.ack_error
    then settle ack w
    else log error "Consumer Worker: Failed to ack message" (settle ack w)

module _ {S H : Type 0} (v : Services S H) (c : Consumer H) where
  -- The handler's call and what the worker does with its result.
  unfoldable pub call : H → Env → Delivery → World S → Phase × World S
  call h e d w =
      let err = (v.execute h d w.publisher).0 in
      if not (is_nil err)
      then (failing (written v h d w.publisher), log_failure err (called v h d w))
      else (acked, ack_success e (called v h d w))

  -- One turn of a worker that has a delivery.
  unfoldable pub move : Env → Phase → World S → Phase × World S
  unfolding call admit on_failure on_success after_retry
  move e idle w = (idle, w)
  move e (taken d) w =
      let (ok, w') = admit e w in
      if ok then (admitted d, w') else (
        idle,
        settle (nack false)
            (log warn "Consumer Worker: Circuit breaker is open, rejecting message" w'),
      )
  move e (admitted d) w = elim (get_handler (get_type v.unmarshal_type d) c.router) [
    | some h ↦ call h e d w
    | none ↦ (idle, settle ack (log error "Consumer Worker: No handler found for message type" w))
  ]
  move e (failing d) w = (retrying d, on_failure e w)
  move e (retrying d) w =
      let ((retry_err, d'), s') = retry v.publish e.retry_now c.retry_handler d w.publisher in
      (retried retry_err d', record w { publisher = s' })
  move e (retried retry_err d) w = (idle, after_retry retry_err d w)
  move e acked w = (idle, on_success e w)

  -- The same with the channel of deliveries: an idle worker takes the next one, if there is one.
  unfoldable pub turn : Env → Phase → List Delivery → World S → (Phase × List Delivery) × World S
  turn e idle [] w = ((idle, []), w)
  turn e idle (d ∷ queue) w =
      let d' = with_trace_id e.uuid d in ((taken d', queue), received v c d' w)
  turn e phase queue w = let (phase', w') = move e phase w in ((phase', queue), w')

-- All that the workers of one `Consume` share, and where each stands.
pub record Workers (S : Type 0) : Type 0 where
  pub phases : List Phase
  pub queue : List Delivery
  pub world : World S

module _ {S H : Type 0} (v : Services S H) (c : Consumer H) where
  -- A turn of worker `i`.
  unfoldable pub step : ℕ → Env → Workers S → Workers S
  step i e s = elim (get_elem? s.phases i) [
    | none ↦ s
    | some phase ↦
        let ((phase', queue'), world') = turn v c e phase s.queue s.world in
        record s { phases = set_at i phase' s.phases; queue = queue'; world = world' }
  ]

  -- The turns in the order in which the scheduler gives them.
  unfoldable pub run : List (ℕ × Env) → Workers S → Workers S
  run [] s = s
  run ((i, e) ∷ turns) s = run turns (step i e s)

  -- One worker alone, from a delivery to the head of its loop.
  pub finish : ℕ → Env → Phase → World S → Option (World S)
  finish zero e phase w = none
  finish (suc fuel) e idle w = some w
  finish (suc fuel) e phase w = let (phase', w') = move v c e phase w in finish fuel e phase' w'

-- `Consume`: the checks at its head, with the error of the channel's `Consume`, and the workers that
-- it starts. `range workers` makes none for a number below 1.
unfoldable pub consume : Client → (refused : Error) → String → ℤ → Error × List Phase
consume client refused queue workers =
    if client.closed then (sentinel client_closed, []) else elim client.channel [
      | none ↦ (sentinel no_channel, [])
      | some channel ↦
          if not (is_nil refused)
          then (new_consume_error queue refused, [])
          else (nil, replicate (pos_part workers) idle)
    ]
