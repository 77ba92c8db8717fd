-- ===== src/EventBus/Agree.antt =====
-- The two batch modes against each other.
use rabbitmq_kit_go.Prelude.{ℕ, ◌+◌, ◌≡◌, refl, true, false, List, [], ◌∷◌, arith}
use rabbitmq_kit_go.Errors.{nil, is_nil}
use rabbitmq_kit_go.Broker.Publisher.{PublishMessage}
use rabbitmq_kit_go.Broker.Publisher.Pipeline.{publish_each}
use rabbitmq_kit_go.EventBus.{
  Event, Ids, Outside, BatchResult, account, create_default_publishing, publish, publish_sequential,
  serialize, tally, publish_batch_pipeline, publish_batch_sequential,
}
use rabbitmq_kit_go.EventBus.Batch.{unserialized, sequential_step}
use rabbitmq_kit_go.EventBus.Pipeline.{tally_step}

module _ {S : Type 0} (o : Outside S) where
  serialized_step :
      (i : ℕ) (ids : Ids) (e : Event) (es : List (Ids × Event)) (r : BatchResult)
      → is_nil (create_default_publishing o.marshal ids e).0 ≡ true
      → let rest = serialize o false (i + 1) es r in
        serialize o false i ((ids, e) ∷ es) r ≡ (
          (
            record {
              exchange = e.exchange;
              routing_key = e.type;
              message = (create_default_publishing o.marshal ids e).1;
            }
                ∷ rest.0.0,
            rest.0.1,
          ),
          rest.1,
        )
  unfolding serialize
  serialized_step i ids e es r h = rw h refl

  serialized_publish :
      (ids : Ids) (e : Event) (s : S)
      → is_nil (create_default_publishing o.marshal ids e).0 ≡ true
      → publish o ids e s
        ≡ o.publish e.exchange e.type (create_default_publishing o.marshal ids e).1 s
  unfolding publish
  serialized_publish ids e s h = rw h refl

  all_good :
      (ids : Ids) (e : Event) (es : List (Ids × Event))
      → unserialized o ((ids, e) ∷ es) ≡ 0
      → (is_nil (create_default_publishing o.marshal ids e).0 ≡ true) × (unserialized o es ≡ 0)
  unfolding unserialized
  all_good ids e es h = ground arith

  all_serialized :
      (i : ℕ) (es : List (Ids × Event)) (r : BatchResult)
      → unserialized o es ≡ 0
      → ((serialize o false i es r).0.1 ≡ nil) × ((serialize o false i es r).1 ≡ r)
  all_serialized i [] r h = unfold serialize in (refl, refl)
  all_serialized i ((ids, e) ∷ es) r h =
      let (good, rest) = all_good ids e es h in
      rw (serialized_step i ids e es r good) (all_serialized (i + 1) es r rest)

  same_loop :
      (i j : ℕ) (es : List (Ids × Event)) (r r' : BatchResult) (s : S)
      → unserialized o es ≡ 0
      → let (errs, end) = publish_each o.publish (serialize o false j es r').0.0 s in
        (tally false i errs es r, end) ≡ publish_sequential o false i es r s
  same_loop i j [] r r' s h = unfold serialize tally publish_sequential in refl
  same_loop i j ((ids, e) ∷ es) r r' s h =
      let (good, rest) = all_good ids e es h in
      let (err, s') = o.publish e.exchange e.type (create_default_publishing o.marshal ids e).1 s in
      let (errs, end) = publish_each o.publish (serialize o false (j + 1) es r').0.0 s' in
      rw
        (
          serialized_step j ids e es r' good,
          sequential_step o i ids e es r s,
          serialized_publish ids e s good,
        )
        (rw (tally_step i err errs ids e es r)
          (same_loop (i + 1) (j + 1) es (account i e err r) r' s' rest))

  -- Without fail-fast, when every event serializes and the pipeline comes to publishing every
  -- message in turn, both modes end in the same state with the same result.
  pub modes_agree :
      ((ms : List PublishMessage) (s : S)
        → o.publish_pipeline ms s
          ≡ (((publish_each o.publish ms s).0, nil), (publish_each o.publish ms s).1))
      → (es : List (Ids × Event)) (r : BatchResult) (s : S) → unserialized o es ≡ 0
      → publish_batch_pipeline o false es r s ≡ publish_batch_sequential o false es r s
  unfolding publish_batch_pipeline publish_batch_sequential
  modes_agree in_turn es r s h =
      let (done, kept) = all_serialized 0 es r h in
      rw (done, kept, in_turn (serialize o false 0 es r).0.0 s) (same_loop 0 0 es r r s h)
