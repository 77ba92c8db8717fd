-- ===== src/Broker/Publisher.antt =====
-- internal/broker/publisher.go: publishing, with the confirmations of the broker routed to the
-- publishers that wait for them. What the source does between `p.mu.Lock` and `p.mu.Unlock` is one
-- step here; steps of other goroutines come between as a function `others`. Channels are numbered
-- in the order in which they are made. Log lines are left out. That `Publish` counts the tag up, by an atomic
-- operation, and puts the message among those that wait, under the lock, is one step too (`register`),
-- though other goroutines can come between: orders of steps in which they do are not in the model.
pub mod Channels
pub mod Sound
pub mod Confirm
pub mod Steps
pub mod Setup
pub mod Tags
pub mod Races
pub mod Pipeline
pub mod Plain
pub mod Processor
mod Examples
use rabbitmq_kit_go.Prelude.{
  ℕ, suc, ◌+◌, ◌%◌, ◌^◌, Bool, true, false, not, ◌&&◌, ◌||◌, String, Option, none, some, List, [],
  ◌∷◌, ◌++◌, length, get_elem?, if◌then◌else◌, ◌==◌,
}
use rabbitmq_kit_go.Errors.{
  Error, nil, is_nil, sentinel, client_closed, no_channel, publish_not_confirmed,
  publish_confirm_timeout, new_publish_error,
}
use rabbitmq_kit_go.Amqp.{Publishing}
use rabbitmq_kit_go.Broker.Retry.{Publish}
use rabbitmq_kit_go.Broker.Publisher.Channels.{
  Go, ok, panic, blocked, and_then, Result, open_, closed, send, close_result, close_done, find,
  remove, close_all,
}

-- `results` are the result channels made so far, `dones` the `done` channels with whether they are
-- closed. `channel_id` is the address of the AMQP channel, 0 for nil; addresses are taken to differ
-- for different channels.
pub record Publisher : Type 0 where
  pub pending : List (ℕ × ℕ)  -- delivery tag, result channel
  pub results : List Result
  pub delivery_tag : ℕ  -- uint64
  pub done : ℕ
  pub dones : List Bool
  pub started : Bool
  pub channel_id : ℕ

pub record PublishMessage : Type 0 where
  pub exchange : String
  pub routing_key : String
  pub message : Publishing

-- What the publisher reads of its client.
pub record View : Type 0 where
  pub closed : Bool
  pub channel : ℕ
  pub publisher_confirms : Bool

unfoldable pub new_publisher : View → Publisher
new_publisher v = record {
  pending = [];
  results = [];
  delivery_tag = 0;
  done = 0;
  dones = false ∷ [];
  started = v.publisher_confirms && not (v.channel == 0);
  channel_id = if v.publisher_confirms then v.channel else 0;
}

-- The part of the reset under the lock; with the `done` channel that is to be closed.
unfoldable pub reset_under_lock : ℕ → Publisher → Go (Publisher × ℕ)
reset_under_lock current p =
    let fresh =
      (if p.started
        then record p { done = length p.dones; dones = p.dones ++ false ∷ []; started = false }
        else p) in
    and_then (close_all p.pending p.results) (λ results. ok (
      record fresh { delivery_tag = 0; pending = []; results = results; channel_id = current },
      p.done,
    ))

-- `later` is the client's channel when it is read for the second time.
unfoldable pub ensure_confirms_setup : View → (later : ℕ) → Publisher → Go Publisher
unfolding reset_under_lock
ensure_confirms_setup v later p =
    if not v.publisher_confirms || v.channel == p.channel_id
    then ok p
    else and_then (reset_under_lock v.channel p) (λ (q, old_done).
      and_then (close_done old_done q.dones)
        (λ dones. ok (record q { dones = dones; started = not (later == 0) || q.started })))

-- A tag and a result channel for a message, registered.
unfoldable pub register : Publisher → (ℕ × ℕ) × Publisher
register p =
    let tag = (p.delivery_tag + 1) % 2 ^ 64 in
    let chan = length p.results in
    (
      (tag, chan),
      record p {
        delivery_tag = tag;
        results = p.results ++ open_ none ∷ [];
        pending = (tag, chan) ∷ remove tag p.pending;
      },
    )

-- delete(p.pending, tag)
unfoldable pub unregister : ℕ → Publisher → Publisher
unregister tag p = record p { pending = remove tag p.pending }

-- A confirmation, in `processConfirmations`.
unfoldable pub confirm : ℕ → Bool → Publisher → Go Publisher
confirm tag ack p = elim (find tag p.pending) [
  | none ↦ ok p
  | some chan ↦ and_then (send chan ack p.results) (λ sent.
      and_then (close_result chan sent)
        (λ results. ok (record p { results = results; pending = remove tag p.pending })))
]

-- The channel of confirmations is closed, in `processConfirmations`.
unfoldable pub confirms_closed : Publisher → Go Publisher
confirms_closed p =
    and_then (close_all p.pending p.results)
      (λ results. ok (record p { results = results; pending = [] }))

unfoldable pub close : Publisher → Go Publisher
close p =
    if p.started
    then and_then (close_done p.done p.dones)
        (λ dones. ok (record p { dones = dones; started = false }))
    else ok p

-- Which case of the `select` is taken.
pub data Wait : Type 0 where
  received : Wait
  timed_out : Wait
  cancelled : Error → Wait

-- What a receive from the result channel gives; an open channel without a value blocks.
unfoldable pub receive : ℕ → List Result → Go (Option Bool)
receive chan results = elim (get_elem? results chan) [
  | some (open_ none) ↦ blocked
  | some (open_ (some ack)) ↦ ok (some ack)
  | some (closed value) ↦ ok value
  | none ↦ blocked
]

-- The end of `Publish`, with its deferred cleanup.
unfoldable pub conclude : Wait → ℕ → ℕ → Publisher → Go (Error × Publisher)
unfolding receive unregister
conclude timed_out tag chan p = ok (sentinel publish_confirm_timeout, unregister tag p)
conclude (cancelled err) tag chan p = ok (err, unregister tag p)
conclude received tag chan p = and_then (receive chan p.results) (λ value. elim value [
  | none ↦ ok (sentinel publish_confirm_timeout, unregister tag p)
  | some true ↦ ok (nil, p)
  | some false ↦ ok (sentinel publish_not_confirmed, unregister tag p)
])

-- `Publish`: `publish_with_context` is the AMQP channel's method, and `others` what the other
-- goroutines do from the registration to the end of the wait.
unfoldable pub publish :
    {S : Type 0} (publish_with_context : Publish S) (others : Publisher → Go Publisher)
    → View
    → (later : ℕ) → Wait
    → String
    → String
    → Publishing
    → S
    → Publisher
    → Go ((Error × Publisher) × S)
unfolding unregister
publish publish_with_context others v later wait exchange routing_key msg s p =
    and_then (ensure_confirms_setup v later p) (λ p1.
      if v.closed
      then ok ((sentinel client_closed, p1), s)
      else (if v.channel == 0
          then ok ((sentinel no_channel, p1), s)
          else (let (err, s') = publish_with_context exchange routing_key msg s in
              if not v.publisher_confirms
              then ok (
                ((if is_nil err then nil else new_publish_error exchange routing_key err), p1),
                s',
              )
              else (let ((tag, chan), p2) = register p1 in
                  and_then (others p2) (λ p3.
                    if not (is_nil err)
                    then ok ((new_publish_error exchange routing_key err, unregister tag p3), s')
                    else and_then (conclude wait tag chan p3) (λ r. ok (r, s')))))))

-- A message of `PublishBatchPipeline` that could not be sent: the end of its turn in the loop.
unfoldable pub drop_failed : ℕ → ℕ → Publisher → Go Publisher
unfolding unregister
drop_failed tag chan p =
    and_then (close_result chan p.results)
      (λ results. ok (record (unregister tag p) { results = results }))
