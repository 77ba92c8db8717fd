-- ===== src/Config/Options.antt =====
-- The functional options of config/config.go and config/batch.go: a `func(*Config)` is a function
-- to the new record.
use rabbitmq_kit_go.Prelude.{Bool, true, false, String, List, [], ◌∷◌}
use rabbitmq_kit_go.Prelude.Int.{ℤ, pos}
use rabbitmq_kit_go.Config.{Config}
use rabbitmq_kit_go.Config.Topology.{DlqConfig, ExchangeConfig, QueueConfig}

abbrev pub ConfigOption : Type 0
ConfigOption = Config → Config

abbrev pub with_uri : String → ConfigOption
with_uri uri c = record c { uri = uri }

abbrev pub with_reconnect_delay : ℤ → ConfigOption
with_reconnect_delay delay c = record c { reconnect_delay = delay }

abbrev pub with_timeout : ℤ → ConfigOption
with_timeout timeout c = record c { timeout = timeout }

abbrev pub with_prefetch_count : ℤ → ConfigOption
with_prefetch_count count c = record c { prefetch_count = count }

abbrev pub with_max_retries : ℤ → ConfigOption
with_max_retries retries c = record c { max_retries = retries }

abbrev pub with_exchanges : List ExchangeConfig → ConfigOption
with_exchanges exchanges c = record c { exchanges = exchanges }

abbrev pub with_queues : List QueueConfig → ConfigOption
with_queues queues c = record c { queues = queues }

abbrev pub with_publisher_confirms : Bool → ConfigOption
with_publisher_confirms enabled c = record c { publisher_confirms = enabled }

abbrev pub with_confirm_timeout : ℤ → ConfigOption
with_confirm_timeout timeout c = record c { confirm_timeout = timeout }

-- Whether the logger given is not nil.
abbrev pub with_logger : Bool → ConfigOption
with_logger set c = record c { has_logger = set }

abbrev pub with_circuit_breaker : Bool → ConfigOption
with_circuit_breaker enabled c = record c { circuit_breaker_enabled = enabled }

abbrev pub with_circuit_breaker_max_failures : ℤ → ConfigOption
with_circuit_breaker_max_failures n c = record c { circuit_breaker_max_failures = n }

abbrev pub with_circuit_breaker_reset_timeout : ℤ → ConfigOption
with_circuit_breaker_reset_timeout d c = record c { circuit_breaker_reset_timeout = d }

abbrev pub with_circuit_breaker_half_open_requests : ℤ → ConfigOption
with_circuit_breaker_half_open_requests n c = record c { circuit_breaker_half_open_requests = n }

abbrev pub with_dlq : Bool → ConfigOption
with_dlq enabled c = record c { dlq_enabled = enabled }

abbrev pub with_custom_dlq : DlqConfig → ConfigOption
with_custom_dlq dlq_config c = record c { dlq_enabled = true; dlq_config = dlq_config }

abbrev pub with_dlq_exchange : String → ConfigOption
with_dlq_exchange exchange_name c = record c {
  dlq_config = record c.dlq_config { exchange_name = exchange_name };
}

abbrev pub with_dlq_prefix : String → ConfigOption
with_dlq_prefix prefix c = record c { dlq_config = record c.dlq_config { queue_prefix = prefix } }

-- Whether each of the two callbacks is set.
abbrev pub with_connection_blocked_callback : Bool → Bool → ConfigOption
with_connection_blocked_callback blocked unblocked c = record c {
  has_on_connection_blocked = blocked;
  has_on_connection_unblocked = unblocked;
}

-- `for _, opt := range opts { opt(&cfg) }`
unfoldable pub apply_options : {C : Type 0} → List (C → C) → C → C
apply_options [] c = c
apply_options (opt ∷ opts) c = apply_options opts (opt c)

pub record BatchConfig : Type 0 where
  pub use_pipelining : Bool
  pub fail_fast : Bool
  pub max_concurrency : ℤ

abbrev pub default_batch_config : BatchConfig
default_batch_config = record { use_pipelining = true; fail_fast = false; max_concurrency = pos 0 }

abbrev pub with_pipelining : Bool → BatchConfig → BatchConfig
with_pipelining enabled c = record c { use_pipelining = enabled }

abbrev pub with_fail_fast : Bool → BatchConfig → BatchConfig
with_fail_fast enabled c = record c { fail_fast = enabled }

abbrev pub with_max_concurrency : ℤ → BatchConfig → BatchConfig
with_max_concurrency n c = record c { max_concurrency = n }
