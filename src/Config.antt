-- ===== src/Config.antt =====
-- config/: the configuration of the client, its defaults and its functional options. A `Duration`
-- is an int of nanoseconds. The logger and the callbacks are code of the user: of them the model
-- keeps whether they are set.
pub mod Topology
pub mod Options
pub mod Validate
pub mod Dlx
mod Examples
use rabbitmq_kit_go.Prelude.{ℕ, Bool, true, false, String, Option, List, []}
use rabbitmq_kit_go.Prelude.Int.{ℤ, pos}
use rabbitmq_kit_go.Config.Topology.{DlqConfig, ExchangeConfig, QueueConfig, default_dlq_config}

pub record Config : Type 0 where
  pub uri : String
  pub reconnect_delay : ℤ
  pub timeout : ℤ
  pub prefetch_count : ℤ
  pub max_retries : ℤ
  pub publisher_confirms : Bool
  pub confirm_timeout : ℤ
  pub has_logger : Bool
  pub circuit_breaker_enabled : Bool
  pub circuit_breaker_max_failures : ℤ
  pub circuit_breaker_reset_timeout : ℤ
  pub circuit_breaker_half_open_requests : ℤ
  pub dlq_enabled : Bool
  pub dlq_config : DlqConfig
  pub exchanges : List ExchangeConfig
  pub queues : List QueueConfig
  pub has_on_connection_blocked : Bool
  pub has_on_connection_unblocked : Bool

-- A field that the source leaves out has its zero value, `ConfirmTimeout` among them.
unfoldable pub default_config : Config
default_config = record {
  uri = "";
  reconnect_delay = pos 5000000000;
  timeout = pos 10000000000;
  prefetch_count = pos 10;
  max_retries = pos 3;
  publisher_confirms = false;
  confirm_timeout = pos 0;
  has_logger = true;
  circuit_breaker_enabled = false;
  circuit_breaker_max_failures = pos 5;
  circuit_breaker_reset_timeout = pos 60000000000;
  circuit_breaker_half_open_requests = pos 3;
  dlq_enabled = false;
  dlq_config = default_dlq_config;
  exchanges = [];
  queues = [];
  has_on_connection_blocked = false;
  has_on_connection_unblocked = false;
}
