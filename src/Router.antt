-- ===== src/Router.antt =====
-- router/router.go, message.go and dlqMessage.go: the handlers by message type, and what a
-- handler can ask of a message.
pub mod Message
pub mod Dlq
pub mod Laws
mod Examples
use rabbitmq_kit_go.Prelude.{String, Option, [], Bool}
use rabbitmq_kit_go.Prelude.GoMap.{GoMap, lookup, insert}

-- `H` stands for the handlers, values of the interface `HandlerService`.
pub record Router (H : Type 0) : Type 0 where
  pub handlers : GoMap H

unfoldable pub new_router : {H : Type 0} → Router H
new_router = record { handlers = [] }

-- `Handle`
unfoldable pub handle : {H : Type 0} → String → H → Router H → Router H
handle event_type handler r = record { handlers = insert event_type handler r.handlers }

-- A type without a handler gives nil.
unfoldable pub get_handler : {H : Type 0} → String → Router H → Option H
get_handler event_type r = lookup event_type r.handlers
