-- ===== src/Broker/Publisher/Pipeline.antt =====
-- internal/broker/publisher.go, `PublishBatchPipeline`: all messages are sent before any
-- confirmation is waited for. `between` is what the other goroutines do after a registration and
-- before a wait.
use rabbitmq_kit_go.Prelude.{
  ℕ, Bool, true, false, not, Option, none, some, List, [], ◌∷◌, map, if◌then◌else◌, ◌==◌,
}
use rabbitmq_kit_go.Errors.{
  Error, nil, is_nil, sentinel, client_closed, no_channel, publish_not_confirmed,
  publish_confirm_timeout, new_publish_error,
}
use rabbitmq_kit_go.Broker.Retry.{Publish}
use rabbitmq_kit_go.Broker.Publisher.{
  Publisher, PublishMessage, View, Wait, received, timed_out, cancelled, ensure_confirms_setup,
  register, unregister, receive, drop_failed,
}
use rabbitmq_kit_go.Broker.Publisher.Channels.{Go, ok, blocked, and_then}

-- A message after the first loop: its tag, its result channel and its error.
pub record Sent : Type 0 where
  pub tag : ℕ
  pub chan : ℕ
  pub error : Error

-- What a receive says of a message; `none` is a channel closed without an answer.
abbrev answer_error : Option Bool → Error
answer_error none = sentinel publish_confirm_timeout
answer_error (some true) = nil
answer_error (some false) = sentinel publish_not_confirmed

-- One round of the loop that waits.
unfoldable pub wait_for : Wait → Sent → Publisher → Go (Error × Publisher)
unfolding receive unregister
wait_for received m p = and_then (receive m.chan p.results) (λ value. ok (answer_error value, p))
wait_for timed_out m p = ok (sentinel publish_confirm_timeout, unregister m.tag p)
wait_for (cancelled err) m p = ok (err, p)

abbrev is_cancelled : Wait → Bool
is_cancelled (cancelled err) = true
is_cancelled w = false

-- The context's error, if the wait ended by it.
abbrev pub context_error : Wait → Error
context_error (cancelled err) = err
context_error w = nil

module _ {S : Type 0} (publish_with_context : Publish S) where
  -- `Publish` without confirms: the AMQP channel's method, its error wrapped.
  unfoldable pub send_plain : Publish S
  send_plain exchange routing_key msg s =
      let (err, s') = publish_with_context exchange routing_key msg s in
      ((if is_nil err then nil else new_publish_error exchange routing_key err), s')

  -- The loop that is used when confirms are not enabled.
  unfoldable pub send_unconfirmed : List PublishMessage → S → List Error × S
  unfolding send_plain
  send_unconfirmed [] s = ([], s)
  send_unconfirmed (m ∷ ms) s =
      let (err, s') = send_plain m.exchange m.routing_key m.message s in
      let (errs, end) = send_unconfirmed ms s' in (err ∷ errs, end)

module _ {S : Type 0} (publish_with_context : Publish S) (between : Publisher → Go Publisher) where
  -- The first loop, over the messages.
  unfoldable pub send_all : List PublishMessage → S → Publisher → Go ((List Sent × Publisher) × S)
  unfolding send_plain
  send_all [] s p = ok (([], p), s)
  send_all (m ∷ ms) s p =
      let ((tag, chan), p1) = register p in
      let (err, s') = send_plain publish_with_context m.exchange m.routing_key m.message s in
      and_then (between p1) (λ p2.
        and_then (if is_nil err then ok p2 else drop_failed tag chan p2) (λ p3.
          and_then (send_all ms s' p3)
            (λ r. ok ((record { tag = tag; chan = chan; error = err } ∷ r.0.0, r.0.1), r.1))))

  -- The second loop, over the result channels, with the case that each `select` takes. A context
  -- that is cancelled ends it: the messages that are left keep the errors that they have.
  unfoldable pub wait_all :
      List Sent → List Wait → Publisher → Go ((List Error × Error) × Publisher)
  unfolding wait_for
  wait_all [] waits p = ok (([], nil), p)
  wait_all (m ∷ sent) [] p = blocked
  wait_all (m ∷ sent) (w ∷ waits) p =
      if not (is_nil m.error)
      then and_then (wait_all sent (w ∷ waits) p) (λ r. ok ((m.error ∷ r.0.0, r.0.1), r.1))
      else (if is_cancelled w
          then and_then (between p) (λ q. ok ((nil ∷ map (λ x. x.error) sent, context_error w), q))
          else and_then (between p) (λ q.
            and_then (wait_for w m q) (λ (err, q').
              and_then (wait_all sent waits q') (λ r. ok ((err ∷ r.0.0, r.0.1), r.1)))))

  unfoldable pub publish_batch_pipeline :
      View
      → (later : ℕ) → List Wait
      → List PublishMessage
      → S
      → Publisher
      → Go (((List Error × Error) × Publisher) × S)
  publish_batch_pipeline v later waits [] s p = ok ((([], nil), p), s)
  publish_batch_pipeline v later waits (m ∷ ms) s p =
      and_then (ensure_confirms_setup v later p) (λ p1.
        if v.closed
        then ok ((([], sentinel client_closed), p1), s)
        else (if v.channel == 0
            then ok ((([], sentinel no_channel), p1), s)
            else (if not v.publisher_confirms
                then (let (errs, s') = send_unconfirmed publish_with_context (m ∷ ms) s in
                    ok (((errs, nil), p1), s'))
                else and_then (send_all (m ∷ ms) s p1)
                    (λ sent. and_then (wait_all sent.0.0 waits sent.0.1) (λ r. ok (r, sent.1))))))

-- What a pipeline comes to: every message is published in turn, and each has its error.
abbrev pub publish_each : {S : Type 0} → Publish S → List PublishMessage → S → List Error × S
publish_each publish [] s = ([], s)
publish_each publish (m ∷ ms) s =
    let (err, s') = publish m.exchange m.routing_key m.message s in
    let (errs, end) = publish_each publish ms s' in (err ∷ errs, end)
