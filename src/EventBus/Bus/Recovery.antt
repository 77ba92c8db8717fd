-- ===== src/EventBus/Bus/Recovery.antt =====
-- The client's reconnect and the publisher's next publish, together.
use rabbitmq_kit_go.Prelude.{
  ℕ, suc, ◌≡◌, refl, ◌∙◌, Bool, true, false, not, ◌||◌, String, none, some, if◌then◌else◌, ◌==◌,
  arith,
}
use rabbitmq_kit_go.Errors.{nil, is_nil, sentinel, publish_not_confirmed}
use rabbitmq_kit_go.Amqp.{Publishing}
use rabbitmq_kit_go.Broker.Client
use rabbitmq_kit_go.Broker.Client.{Answer, Client, Net, Dialing, connect}
use rabbitmq_kit_go.Broker.Client.Connect.{Unused, connect-Opens}
use rabbitmq_kit_go.Broker.Publisher.{
  Publisher, View, Wait, received, publish, register, confirm, ensure_confirms_setup,
}
use rabbitmq_kit_go.Broker.Publisher.Channels.{Go, ok, find}
use rabbitmq_kit_go.Broker.Publisher.Setup.{
  IsReady, reset_ready, after_reset, unchanged, publish_confirmed,
}
use rabbitmq_kit_go.Broker.Publisher.Sound.{Waiting}
use rabbitmq_kit_go.Broker.Publisher.Steps.{IsSound}
use rabbitmq_kit_go.Broker.Retry.{Publish}
use rabbitmq_kit_go.EventBus.Bus.{EventBus, view, is_connected}
use rabbitmq_kit_go.EventBus.Bus.Lifecycle.{connected}

module _ {S : Type 0} (publish_with_context : Publish S) where
  -- What is published on a publisher that has been set up is what is published on it before.
  publish_after_setup :
      (others : Publisher → Go Publisher) (v : View) (later : ℕ) (wait : Wait)
      (exchange routing_key : String) (msg : Publishing) (s : S) (p q : Publisher)
      → ensure_confirms_setup v later p ≡ ok q
      → (v.channel == q.channel_id) ≡ true
      → publish publish_with_context others v later wait exchange routing_key msg s p
        ≡ publish publish_with_context others v later wait exchange routing_key msg s q
  unfolding publish
  publish_after_setup others v later wait exchange routing_key msg s p q h same =
      rw (h, unchanged v later q same) refl

  -- The first message of a channel that the publisher has yet to take.
  published_first :
      (v : View) (ack : Bool) (exchange routing_key : String) (msg : Publishing) (s : S)
      (p : Publisher)
      → IsSound p
      → IsReady p
      → v.publisher_confirms ≡ true
      → v.closed ≡ false
      → (v.channel == 0) ≡ false
      → (v.channel == p.channel_id) ≡ false
      → is_nil (publish_with_context exchange routing_key msg s).0 ≡ true
      → (p' : Publisher) × (publish publish_with_context
            (confirm 1 ack)
            v
            v.channel
            received
            exchange
            routing_key
            msg
            s
            p
          ≡ ok (
            ((if ack then nil else sentinel publish_not_confirmed), p'),
            (publish_with_context exchange routing_key msg s).1,
          ))
        × (find 1 p'.pending ≡ none)
  unfolding register
  published_first v ack exchange routing_key msg s p sound ready confirms open_ present other sent =
      let changed : (not v.publisher_confirms || v.channel == p.channel_id) ≡ false =
        rw (confirms, other) refl in
      let (results, h) = reset_ready v v.channel p sound ready present changed in
      let q = after_reset v results p in
      let same : (v.channel == v.channel) ≡ true = ground arith in
      let (p', done, gone) =
        publish_confirmed publish_with_context v v.channel ack exchange routing_key msg s q
          (unfold IsSound Waiting in tt) confirms open_ present same sent in
      (
        p',
        publish_after_setup (confirm 1 ack) v v.channel received exchange routing_key msg s p q h
              same
            ∙ done,
        gone,
      )

module _ {B H S : Type 0} (request : Answer B) (publish_with_context : Publish S) where
  -- On a bus that is open, with confirms, and with a publisher that runs and whose messages that
  -- wait have open channels of their own, a reconnect that succeeds brings the bus back: it is
  -- connected, and the next publish, on the new channel, registers its message under the tag 1 and,
  -- when the send succeeds and the broker answers the first message of that channel, ends with that
  -- answer: without error for an ack, with ErrPublishNotConfirmed for a nack. The numbers of the
  -- new connection and channel are not in use before.
  pub published_after_reconnect :
      (d : Dialing) (b : EventBus H) (n : Net B) (ack : Bool) (exchange routing_key : String)
      (msg : Publishing) (s : S)
      → b.client.closed ≡ false
      → b.client.config.publisher_confirms ≡ true
      → IsSound b.publisher
      → IsReady b.publisher
      → Unused n.next n.open_conns
      → Unused n.next n.open_channels
      → (suc n.next == b.publisher.channel_id) ≡ false
      → is_nil (connect request d b.client n).0.0 ≡ true
      → is_nil (publish_with_context exchange routing_key msg s).0 ≡ true
      → let ((err, client), n') = connect request d b.client n in
        let v = view client in
        (is_connected (record b { client = client }) n' ≡ true)
        × ((p' : Publisher) × (publish publish_with_context
                (confirm 1 ack)
                v
                v.channel
                received
                exchange
                routing_key
                msg
                s
                b.publisher
              ≡ ok (
                ((if ack then nil else sentinel publish_not_confirmed), p'),
                (publish_with_context exchange routing_key msg s).1,
              ))
            × (find 1 p'.pending ≡ none))
  published_after_reconnect d b n ack exchange routing_key msg s open_ confirms sound ready u v
        other made sent =
      let c = record b.client { conn = some n.next; channel = some n.next } in
      let opens = connect-Opens request d b.client n u v in
      rw (connected request d b.client n made) (
        unfold is_connected Client.is_connected in rw (opens.0, made) (ground arith),
        published_first publish_with_context (view c) ack exchange routing_key msg s b.publisher
            sound ready confirms open_ (ground arith) other sent,
      )
