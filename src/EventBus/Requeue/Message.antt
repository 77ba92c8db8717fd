-- ===== src/EventBus/Requeue/Message.antt =====
-- The headers of a requeued message.
use rabbitmq_kit_go.Prelude.{
  ◌≡◌, refl, ◌∙◌, ap, Bool, true, false, ◌&&◌, String, Option, none, some, [], arith, if◌then◌else◌,
  str_eq,
}
use rabbitmq_kit_go.Prelude.Int.{pos}
use rabbitmq_kit_go.Prelude.GoMap.{lookup, insert, copy, lookup-delete, lookup-insert, lookup-copy}
use rabbitmq_kit_go.Amqp.{int32, Headers, Delivery}
use rabbitmq_kit_go.Router.Message.{get, get_retry_count, count_header, or_zero}
use rabbitmq_kit_go.Broker.Retry.{or_new}
use rabbitmq_kit_go.EventBus.Requeue.{requeued_headers}

copied_lem :
    (j : String) (headers : Option Headers) → lookup j (copy (or_new headers) []) ≡ get j headers
unfolding get
copied_lem j none = unfold lookup copy in refl
copied_lem j (some t) = lookup-copy j t [] ∙ unfold lookup in ground arith

-- The headers of a requeued message: `x-death` is gone, `x-retry-count` is zero if it is to be
-- reset, and every other header is the delivery's.
pub lookup-requeued_headers :
    (j : String) (reset : Bool) (headers : Option Headers)
    → lookup j (requeued_headers reset headers) ≡ (
        if str_eq "x-death" j
        then none
        else (if reset && str_eq "x-retry-count" j then some (int32 (pos 0)) else get j headers))
unfolding requeued_headers
lookup-requeued_headers j true headers = ground (
  arith,
  lookup-delete "x-death" j (insert "x-retry-count" (int32 (pos 0)) (copy (or_new headers) [])),
  lookup-insert "x-retry-count" j (int32 (pos 0)) (copy (or_new headers) []),
  copied_lem j headers,
)
lookup-requeued_headers j false headers =
    ground (arith, lookup-delete "x-death" j (copy (or_new headers) []), copied_lem j headers)

-- The consumer of a requeued message reads a retry count of zero after a reset, and the dead
-- message's own count otherwise.
pub get_retry_count-requeued :
    (d : Delivery) (reset : Bool)
    → get_retry_count (record d { headers = some (requeued_headers reset d.headers) })
      ≡ (if reset then pos 0 else get_retry_count d)
unfolding get_retry_count get
get_retry_count-requeued d true = ap or_zero (lookup-requeued_headers count_header true d.headers)
get_retry_count-requeued d false = ap or_zero (lookup-requeued_headers count_header false d.headers)
