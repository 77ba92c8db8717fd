-- ===== src/Broker/Publisher/Plain.antt =====
-- Publishing without confirms.
use rabbitmq_kit_go.Prelude.{ℕ, ◌≡◌, refl, false, List, [], ◌∷◌, ◌==◌}
use rabbitmq_kit_go.Errors.{nil}
use rabbitmq_kit_go.Broker.Retry.{Publish}
use rabbitmq_kit_go.Broker.Publisher.{
  Publisher, PublishMessage, View, Wait, ensure_confirms_setup, publish,
}
use rabbitmq_kit_go.Broker.Publisher.Channels.{Go, ok}
use rabbitmq_kit_go.Broker.Publisher.Pipeline.{
  send_plain, send_unconfirmed, publish_batch_pipeline, publish_each,
}

module _ {S : Type 0} (publish_with_context : Publish S) (others : Publisher → Go Publisher) where
  send_unconfirmed-publish_each :
      (ms : List PublishMessage) (s : S)
      → send_unconfirmed publish_with_context ms s
        ≡ publish_each (send_plain publish_with_context) ms s
  unfolding send_unconfirmed
  send_unconfirmed-publish_each [] s = refl
  send_unconfirmed-publish_each (m ∷ ms) s =
      let (err, s') = send_plain publish_with_context m.exchange m.routing_key m.message s in
      rw (send_unconfirmed-publish_each ms s') refl

  no_setup :
      (v : View) (later : ℕ) (p : Publisher)
      → v.publisher_confirms ≡ false
      → ensure_confirms_setup v later p ≡ ok p
  unfolding ensure_confirms_setup
  no_setup v later p plain = rw plain refl

  piped :
      (v : View) (later : ℕ) (waits : List Wait) (ms : List PublishMessage) (s : S) (p : Publisher)
      → v.publisher_confirms ≡ false
      → v.closed ≡ false
      → (v.channel == 0) ≡ false
      → publish_batch_pipeline publish_with_context others v later waits ms s p
        ≡ ok (
          (((publish_each (send_plain publish_with_context) ms s).0, nil), p),
          (publish_each (send_plain publish_with_context) ms s).1,
        )
  unfolding publish_batch_pipeline
  piped v later waits [] s p plain live present = refl
  piped v later waits (m ∷ ms) s p plain live present =
      rw (no_setup v later p plain, live, present, plain, send_unconfirmed-publish_each (m ∷ ms) s)
        refl

  single :
      (v : View) (later : ℕ) (wait : Wait) (m : PublishMessage) (s : S) (p : Publisher)
      → v.publisher_confirms ≡ false
      → v.closed ≡ false
      → (v.channel == 0) ≡ false
      → publish publish_with_context others v later wait m.exchange m.routing_key m.message s p
        ≡ ok (
          ((send_plain publish_with_context m.exchange m.routing_key m.message s).0, p),
          (send_plain publish_with_context m.exchange m.routing_key m.message s).1,
        )
  unfolding publish send_plain
  single v later wait m s p plain live present =
      rw (no_setup v later p plain, live, present, plain) refl

  -- On an open client with a channel and without confirms, the pipeline sends exactly what as many
  -- calls of `Publish` would, with the error of each message in its place and no error of its own;
  -- neither touches the state of the confirms.
  pub pipeline_in_turn :
      (v : View) (later : ℕ) (waits : List Wait) (wait : Wait) (ms : List PublishMessage)
      (m : PublishMessage) (s : S) (p : Publisher)
      → v.publisher_confirms ≡ false
      → v.closed ≡ false
      → (v.channel == 0) ≡ false
      → (publish_batch_pipeline publish_with_context others v later waits ms s p
          ≡ ok (
            (((publish_each (send_plain publish_with_context) ms s).0, nil), p),
            (publish_each (send_plain publish_with_context) ms s).1,
          ))
        × (publish publish_with_context others v later wait m.exchange m.routing_key m.message s p
            ≡ ok (
              ((send_plain publish_with_context m.exchange m.routing_key m.message s).0, p),
              (send_plain publish_with_context m.exchange m.routing_key m.message s).1,
            ))
  pipeline_in_turn v later waits wait ms m s p plain live present =
      (piped v later waits ms s p plain live present, single v later wait m s p plain live present)
