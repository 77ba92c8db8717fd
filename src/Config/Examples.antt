-- ===== src/Config/Examples.antt =====
-- The theorems on configurations at concrete inputs.
use rabbitmq_kit_go.Prelude.{◌≡◌, ◌↔◌, refl, true, false, some, none, [], ◌∷◌, arith}
use rabbitmq_kit_go.Prelude.Int.{pos}
use rabbitmq_kit_go.Prelude.GoMap.{lookup}
use rabbitmq_kit_go.Amqp.{int32, string}
use rabbitmq_kit_go.Errors.{nil, config_error}
use rabbitmq_kit_go.Prelude.Decimal.{decimal}
use rabbitmq_kit_go.Config.{Config, default_config}
use rabbitmq_kit_go.Config.Topology.{
  ExchangeConfig, QueueConfig, Heap, read, dead_letter_routing_key, with_dlx,
}
use rabbitmq_kit_go.Config.Options.{with_uri, with_exchanges}
use rabbitmq_kit_go.Config.Validate.{validate, validate_iff_IsValid, IsValid}
use rabbitmq_kit_go.Config.Dlx.{with_dlx_shared}

abbrev headers_exchange : ExchangeConfig
headers_exchange = record {
  name = "orders";
  type = "headers";
  durable = true;
  auto_delete = false;
  internal = false;
  args = none;
}

abbrev odd_exchange : ExchangeConfig
odd_exchange = record headers_exchange { type = "queue" }

abbrev local : Config
local = with_uri "amqp://localhost:5672/" default_config

validate_third :
    validate (with_exchanges (headers_exchange ∷ odd_exchange ∷ []) local)
    ≡ config_error "Exchanges[1].Type" "must be one of: direct, fanout, topic, headers (got: queue)"
unfolding validate default_config decimal
validate_third = refl

validate_default : validate default_config ≡ config_error "URI" "is required"
unfolding validate default_config
validate_default = refl

abbrev with_headers : Config
unfolding default_config
with_headers = with_exchanges (headers_exchange ∷ []) local

validate_iff_IsValid_example :
    ((validate with_headers ≡ nil) ↔ IsValid with_headers)
    × (validate (record with_headers { confirm_timeout = pos 0 }) ≡ validate with_headers)
    × (validate (record with_headers { prefetch_count = pos 0 })
        ≡ validate (record with_headers { prefetch_count = pos 1 }))
validate_iff_IsValid_example = validate_iff_IsValid with_headers (pos 0)

abbrev limited : Heap
limited = (("x-max-length", int32 (pos 10)) ∷ []) ∷ []

abbrev orders : QueueConfig
orders = record {
  name = "orders";
  exchange = "";
  routing_keys = [];
  durable = true;
  auto_delete = false;
  exclusive = false;
  args = some 0;
}

abbrev payments : QueueConfig
payments = record orders { name = "payments" }

with_dlx_shared_example :
    let (orders', h') = with_dlx "dlx" "orders" orders limited in
    let (payments', h'') = with_dlx "dlx" "payments" payments h' in
    lookup dead_letter_routing_key (read h'' payments'.args) ≡ some (string "orders")
unfolding lookup
with_dlx_shared_example =
    with_dlx_shared "dlx" "orders" "payments" orders payments limited 0 refl refl (omega arith) refl
