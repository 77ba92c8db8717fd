-- ===== src/EventBus/Requeue/Attempts.antt =====
-- The retries of a message that was put back from its dead letter queue.
use rabbitmq_kit_go.Prelude.{ℕ, ◌+◌, ◌<◌, ◌≡◌, ◌∙◌, Bool, true, false, arith, if◌then◌else◌}
use rabbitmq_kit_go.Prelude.Int.{pos, max_int}
use rabbitmq_kit_go.Amqp.{Delivery}
use rabbitmq_kit_go.Router.Message.{get_retry_count}
use rabbitmq_kit_go.Broker.Retry.{Handler}
use rabbitmq_kit_go.Broker.Retry.Laws.{redelivered, attempts, attempts_lem}
use rabbitmq_kit_go.EventBus.Requeue.{requeued}
use rabbitmq_kit_go.EventBus.Requeue.Message.{get_retry_count-requeued}

count-redelivered :
    (now : ℕ) (reset : Bool) (d : Delivery)
    → get_retry_count (redelivered d (requeued now reset d))
      ≡ (if reset then pos 0 else get_retry_count d)
unfolding get_retry_count
count-redelivered now reset d = get_retry_count-requeued d reset

-- A message that came to its dead letter queue after all its retries, and is put back while its
-- handler still fails: with the count reset it is handled `MaxRetries` + 1 times more, as a new
-- message is, and without only once more.
pub attempts-requeued :
    (fuel now later m : ℕ) (reset : Bool) (h : Handler) (d : Delivery)
    → h.max_retries ≡ pos m
    → get_retry_count d ≡ pos m
    → m < max_int
    → m < fuel
    → attempts fuel later h (redelivered d (requeued now reset d)) ≡ (if reset then m + 1 else 1)
attempts-requeued fuel now later m true h d limit exhausted small enough =
    attempts_lem fuel later 0 m h (redelivered d (requeued now true d)) limit
      (count-redelivered now true d) (omega arith) small (omega arith)
    ∙ omega arith
attempts-requeued fuel now later m false h d limit exhausted small enough =
    attempts_lem fuel later m m h (redelivered d (requeued now false d)) limit
      (count-redelivered now false d ∙ exhausted) (omega arith) small (omega arith)
    ∙ omega arith
