-- ===== src/EventBus/Examples.antt =====
-- Batches and requeueing at concrete inputs.
use rabbitmq_kit_go.Prelude.{
  ◌+◌, ◌≤◌, ◌≡◌, refl, true, false, none, some, List, [], ◌∷◌, length, arith, ◌⊎◌, ◌==◌,
  if◌then◌else◌,
}
use rabbitmq_kit_go.Prelude.Int.{pos, ltb_int}
use rabbitmq_kit_go.Errors.{Error, nil, foreign}
use rabbitmq_kit_go.Amqp.{
  null, boolean, string, int32, array, table, item, empty, field, end, Delivery, Publishing,
}
use rabbitmq_kit_go.Router.Message.{get_retry_count}
use rabbitmq_kit_go.Broker.Retry.{Publish}
use rabbitmq_kit_go.EventBus.{
  Event, Ids, BatchResult, Outside, publish, create_default_publishing, serialize,
  publish_batch_pipeline, publish_batch_sequential,
}
use rabbitmq_kit_go.EventBus.Batch.{unserialized}
use rabbitmq_kit_go.EventBus.FailFast.{until_failure, first_error, tried, fail_fast_lem}
use rabbitmq_kit_go.EventBus.Pipeline.{empty_result, pipeline_accounts}
use rabbitmq_kit_go.EventBus.Agree.{modes_agree}
use rabbitmq_kit_go.Broker.Publisher.Pipeline.{publish_each}
use rabbitmq_kit_go.EventBus.Requeue.{Arrival, closed, requeued, requeue_all_from_dlq}
use rabbitmq_kit_go.Prelude.GoMap.{lookup}
use rabbitmq_kit_go.Broker.Retry.Laws.{attempts, redelivered}
use rabbitmq_kit_go.EventBus.Requeue.Attempts.{attempts-requeued}
use rabbitmq_kit_go.EventBus.Requeue.Laws.{Returns, acks, requeue_all_from_dlq-Returns}

abbrev refusal : Error
refusal = foreign "json: unsupported value" nil

-- A publisher that collects what it is given, and a `Marshal` that refuses null.
abbrev collect : Publish (List Publishing)
collect exchange routing_key p s = (nil, p ∷ s)

abbrev outside : Outside (List Publishing)
outside = record {
  publish = collect;
  publish_pipeline = λ ms s. (((publish_each collect ms s).0, nil), (publish_each collect ms s).1);
  marshal = λ v. elim v [ null ↦ (refusal, []) | _ ↦ (nil, 1 ∷ []) ];
}

abbrev ids : Ids
ids = record { trace = "t"; correlation = "c"; message = "m"; now = 5 }

abbrev good_event : Event
good_event = record { type = "order"; exchange = "orders"; content = boolean true; headers = none }

abbrev bad_event : Event
bad_event = record good_event { content = null }

abbrev mixed : List (Ids × Event)
mixed = (ids, good_event) ∷ (ids, bad_event) ∷ []

abbrev good : List (Ids × Event)
good = (ids, good_event) ∷ (ids, good_event) ∷ []

mixed_refused : unserialized outside mixed ≡ 1
unfolding unserialized create_default_publishing
mixed_refused = refl

good_accepted : unserialized outside good ≡ 0
unfolding unserialized create_default_publishing
good_accepted = refl

-- The second of three events is refused, and the third not tried.
abbrev refused_second : List (Ids × Event)
refused_second = (ids, good_event) ∷ (ids, bad_event) ∷ (ids, good_event) ∷ []

refused_second_stops : length (until_failure outside refused_second []) ≡ 2
unfolding until_failure publish create_default_publishing
refused_second_stops = refl

fail_fast_lem_example :
    let ((r, err), s') =
      publish_batch_sequential outside true refused_second (empty_result refused_second) [] in
    let ((r1, err1), s1) =
      publish_batch_sequential outside false
        (tried outside true refused_second [])
        (empty_result refused_second)
        [] in
    ◌≡◌ {A = BatchResult × List Publishing} (r, s') (r1, s1)
    × (err ≡ first_error outside refused_second [])
    × (r.success + r.failed ≡ length (tried outside true refused_second []))
    × (length r.errors ≡ r.failed)
    × ((publish_batch_pipeline outside true refused_second (empty_result refused_second) []).1 ≡ (
        if unserialized outside refused_second == 0
        then (publish_batch_pipeline outside false refused_second
            (empty_result refused_second)
            []).1
        else []))
fail_fast_lem_example = fail_fast_lem outside true refused_second []

mixed_sent :
    ((outside.publish_pipeline (serialize outside false 0 mixed (empty_result mixed)).0.0 []).0.1
      ≡ nil)
    × (length
          (outside.publish_pipeline
            (serialize outside false 0 mixed (empty_result mixed)).0.0
            []).0.0
        ≡ length mixed)
unfolding serialize create_default_publishing
mixed_sent = (refl, refl)

-- Two events, one of them refused, and three in the accounts.
pipeline_accounts_example :
    let ((r, err), s') = publish_batch_pipeline outside false mixed (empty_result mixed) [] in
    (r.success + r.failed ≡ r.total + unserialized outside mixed)
    × (r.total ≡ length mixed)
    × (length r.errors ≡ r.failed)
    × (err ≡ nil)
pipeline_accounts_example = pipeline_accounts outside mixed [] mixed_sent.0 mixed_sent.1

modes_agree_example :
    publish_batch_pipeline outside false good (empty_result good) []
    ≡ publish_batch_sequential outside false good (empty_result good) []
modes_agree_example = modes_agree outside (λ ms s. refl) good (empty_result good) [] good_accepted

abbrev dead : Delivery
dead = record {
  headers = some (
      ("x-retry-count", int32 (pos 3))
      ∷ (
        "x-death",
        array (
            item
              (table (
                field "exchange" (string "orders")
                  (field "routing-keys" (array (item (string "order.created") empty)) end)))
              empty),
      )
      ∷ ("trace_id", string "t")
      ∷ []);
  content_type = "application/json";
  delivery_mode = 2;
  priority = 0;
  correlation_id = "";
  reply_to = "";
  expiration = "";
  message_id = "";
  type = "";
  user_id = "";
  app_id = "";
  exchange = "dlx.exchange";
  routing_key = "orders";
  body = [];
}

abbrev arrival : Arrival
arrival = record { delivery = dead; cancelled = nil; now = 7 }

-- With three retries and all of them used, four more attempts follow a reset.
attempts-requeued_example :
    attempts 9 8 (record { max_retries = pos 3 }) (redelivered dead (requeued 7 true dead)) ≡ 4
unfolding get_retry_count lookup
attempts-requeued_example =
    attempts-requeued 9 7 8 3 true (record { max_retries = pos 3 }) dead refl refl (omega arith)
      (omega arith)

requeue_all_from_dlq-Returns_example :
    let ((outcome, settled), s') =
      requeue_all_from_dlq collect nil nil "dlq" true (pos 1) (arrival ∷ arrival ∷ []) closed [] in
    Returns (acks settled) outcome
    × ((ltb_int (pos 0) (pos 1) ≡ false) ⊎ (acks settled ≤ 1))
    × (length settled ≤ 2)
requeue_all_from_dlq-Returns_example =
    requeue_all_from_dlq-Returns collect true (pos 1) nil nil "dlq" (arrival ∷ arrival ∷ []) closed
      []
