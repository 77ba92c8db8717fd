-- ===== src/Errors.antt =====
-- errors/errors.go: the errors of the library, and the questions that `errors.Is` and
-- `errors.As` answer about them. A Go `error` is a value of `Error`; the nil interface is `nil`.
pub mod Chain
mod Examples
use Prim.Native.String.{◌++◌}
use rabbitmq_kit_go.Prelude.{String, Bool, true, false, not, if◌then◌else◌}

-- The sentinel errors.
pub data Sentinel : Type 0 where
  client_closed no_connection no_channel max_retries_exceeded : Sentinel
  no_handlers_registered publish_not_confirmed publish_confirm_timeout : Sentinel

-- `foreign t c` is an error of other code: `Error()` gives `t`, and `Unwrap()` gives `c`.
pub data Error : Type 0 where
  nil : Error
  sentinel : Sentinel → Error
  config_error : String → String → Error
  connection_error : String → Error → Error
  publish_error : String → String → Error → Error
  consume_error : String → Error → Error
  topology_error : String → String → Error → Error
  handler_error : String → String → Error → Error
  expected_retry_error : Error → Error
  foreign : String → Error → Error

-- err == nil
abbrev pub is_nil : Error → Bool
is_nil nil = true
is_nil _ = false

abbrev pub sentinel_text : Sentinel → String
sentinel_text client_closed = "rabbitmq: client is closed"
sentinel_text no_connection = "rabbitmq: no active connection"
sentinel_text no_channel = "rabbitmq: no active channel"
sentinel_text max_retries_exceeded = "rabbitmq: max retries exceeded"
sentinel_text no_handlers_registered =
    "rabbitmq: no handlers registered, call RegisterHandler before StartConsume"
sentinel_text publish_not_confirmed = "rabbitmq: message publish was not confirmed by broker"
sentinel_text publish_confirm_timeout = "rabbitmq: timeout waiting for publish confirmation"

-- The text that goes before the cause, `: ` and the cause's own text where there is one.
abbrev with_cause : String → Bool → String → String
with_cause text no_cause cause = if no_cause then text else text ++ ": " ++ cause

-- Error()
unfoldable pub message : Error → String
message nil = ""
message (sentinel s) = sentinel_text s
message (config_error field text) = "rabbitmq: config error [" ++ field ++ "]: " ++ text
message (connection_error operation cause) =
    with_cause ("rabbitmq: connection error during '" ++ operation ++ "'") (is_nil cause)
      (message cause)
message (publish_error exchange routing_key cause) =
    with_cause
      ("rabbitmq: publish failed [exchange=" ++ exchange ++ ", routing_key=" ++ routing_key ++ "]")
      (is_nil cause) (message cause)
message (consume_error queue cause) =
    with_cause ("rabbitmq: consume failed [queue=" ++ queue ++ "]") (is_nil cause) (message cause)
message (topology_error operation resource cause) =
    with_cause
      ("rabbitmq: topology error during '" ++ operation ++ "' [resource=" ++ resource ++ "]")
      (is_nil cause) (message cause)
message (handler_error event_type message_id cause) =
    with_cause
      ("rabbitmq: handler error [type=" ++ event_type ++ ", message_id=" ++ message_id ++ "]")
      (is_nil cause) (message cause)
message (expected_retry_error cause) =
    if is_nil cause then "rabbitmq: expected retry" else message cause
message (foreign text cause) = text

-- Unwrap(); an error without that method gives nil.
unfoldable pub unwrap : Error → Error
unwrap nil = nil
unwrap (sentinel s) = nil
unwrap (config_error field text) = nil
unwrap (connection_error operation cause) = cause
unwrap (publish_error exchange routing_key cause) = cause
unwrap (consume_error queue cause) = cause
unwrap (topology_error operation resource cause) = cause
unwrap (handler_error event_type message_id cause) = cause
unwrap (expected_retry_error cause) = cause
unwrap (foreign text cause) = cause

unfoldable pub new_config_field_error : String → String → Error
new_config_field_error field text = config_error field text

unfoldable pub new_connection_error : String → Error → Error
new_connection_error operation cause = connection_error operation cause

unfoldable pub new_publish_error : String → String → Error → Error
new_publish_error exchange routing_key cause = publish_error exchange routing_key cause

unfoldable pub new_consume_error : String → Error → Error
new_consume_error queue cause = consume_error queue cause

unfoldable pub new_topology_error : String → String → Error → Error
new_topology_error operation resource cause = topology_error operation resource cause

unfoldable pub new_handler_error : String → String → Error → Error
new_handler_error event_type message_id cause = handler_error event_type message_id cause

unfoldable pub new_expected_retry_error : Error → Error
new_expected_retry_error cause = if is_nil cause then nil else expected_retry_error cause

abbrev pub sentinel_eq : Sentinel → Sentinel → Bool
sentinel_eq client_closed client_closed = true
sentinel_eq no_connection no_connection = true
sentinel_eq no_channel no_channel = true
sentinel_eq max_retries_exceeded max_retries_exceeded = true
sentinel_eq no_handlers_registered no_handlers_registered = true
sentinel_eq publish_not_confirmed publish_not_confirmed = true
sentinel_eq publish_confirm_timeout publish_confirm_timeout = true
sentinel_eq _ _ = false

-- errors.Is(err, target) for a sentinel `target`: the walk along `Unwrap`.
unfoldable pub is : Error → Sentinel → Bool
is nil t = false
is (sentinel s) t = sentinel_eq s t
is (config_error field text) t = false
is (connection_error operation cause) t = is cause t
is (publish_error exchange routing_key cause) t = is cause t
is (consume_error queue cause) t = is cause t
is (topology_error operation resource cause) t = is cause t
is (handler_error event_type message_id cause) t = is cause t
is (expected_retry_error cause) t = is cause t
is (foreign text cause) t = is cause t

-- errors.As(err, &e) for `e *ExpectedRetryError`: the walk along `Unwrap`.
unfoldable pub is_expected_retry : Error → Bool
is_expected_retry nil = false
is_expected_retry (sentinel s) = false
is_expected_retry (config_error field text) = false
is_expected_retry (connection_error operation cause) = is_expected_retry cause
is_expected_retry (publish_error exchange routing_key cause) = is_expected_retry cause
is_expected_retry (consume_error queue cause) = is_expected_retry cause
is_expected_retry (topology_error operation resource cause) = is_expected_retry cause
is_expected_retry (handler_error event_type message_id cause) = is_expected_retry cause
is_expected_retry (expected_retry_error cause) = true
is_expected_retry (foreign text cause) = is_expected_retry cause
