-- ===== src/Router/Dlq.antt =====
-- router/dlqMessage.go: a message of a dead letter queue, with what its headers tell.
use rabbitmq_kit_go.Prelude.{Bool, not, String, Option, none, some, if◌then◌else◌, str_eq}
use Prim.Native.String.{◌++◌}
use rabbitmq_kit_go.Prelude.Decimal.{decimal_int}
use rabbitmq_kit_go.Prelude.Int.{ℤ, pos, ltb_int}
use rabbitmq_kit_go.Amqp.{Value, Fields, int32, int64, time, array, table, item, Delivery, field_of}
use rabbitmq_kit_go.Router.Message.{as_string, get, get_retry_count}

-- `context` is the embedded `*MessageContext`.
pub record DlqMessage : Type 0 where
  pub context : Delivery
  pub original_queue : String
  pub original_exchange : String
  pub original_routing_key : String
  pub retry_count : ℤ
  pub death_reason : String
  pub death_count : ℤ
  pub first_death_timestamp : ℤ

abbrev text_or_empty : Option Value → String
text_or_empty o = elim (as_string o) [ some s ↦ s | none ↦ "" ]

-- The first item of a list that is not empty.
abbrev first_item : Option Value → Option Value
first_item (some (array (item v vs))) = some v
first_item _ = none

abbrev as_table : Option Value → Option Fields
as_table (some (table t)) = some t
as_table _ = none

-- int64 or int32, and nothing else
abbrev count_of : Option Value → ℤ
count_of (some (int64 n)) = n
count_of (some (int32 n)) = n
count_of _ = pos 0

abbrev seconds_of : Option Value → ℤ
seconds_of (some (time s)) = s
seconds_of _ = pos 0

-- Before the x-death header is read.
abbrev plain_message : Delivery → DlqMessage
plain_message d = record {
  context = d;
  original_queue = "";
  original_exchange = "";
  original_routing_key = "";
  retry_count = get_retry_count d;
  death_reason = "";
  death_count = pos 0;
  first_death_timestamp = pos 0;
}

with_death : Option Fields → DlqMessage → DlqMessage
with_death none m = m
with_death (some death) m = record m {
  original_queue = text_or_empty (field_of "queue" death);
  original_exchange = text_or_empty (field_of "exchange" death);
  original_routing_key = text_or_empty (first_item (field_of "routing-keys" death));
  death_reason = text_or_empty (field_of "reason" death);
  death_count = count_of (field_of "count" death);
  first_death_timestamp = seconds_of (field_of "time" death);
}

unfoldable pub new_dlq_message : Delivery → DlqMessage
unfolding with_death get
new_dlq_message d = with_death (as_table (first_item (get "x-death" d.headers))) (plain_message d)

unfoldable pub should_retry : ℤ → DlqMessage → Bool
should_retry max_retries m = ltb_int m.retry_count max_retries

unfoldable pub reset_retry_count : DlqMessage → DlqMessage
reset_retry_count m = record m { retry_count = pos 0 }

unfoldable pub get_original_destination : DlqMessage → String
unfolding get
get_original_destination m =
    if not (str_eq m.original_queue "")
    then m.original_queue
    else text_or_empty (get "x-first-death-queue" m.context.headers)

unfoldable pub get_death_info : DlqMessage → String
get_death_info m =
    "DLQ Message: queue="
    ++ m.original_queue
    ++ ", exchange="
    ++ m.original_exchange
    ++ ", routing_key="
    ++ m.original_routing_key
    ++ ", reason="
    ++ m.death_reason
    ++ ", retry_count="
    ++ decimal_int m.retry_count
    ++ ", death_count="
    ++ decimal_int m.death_count
