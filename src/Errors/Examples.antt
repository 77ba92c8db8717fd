-- ===== src/Errors/Examples.antt =====
-- Errors at concrete inputs.
use rabbitmq_kit_go.Prelude.{◌≡◌, ◌↔◌, refl, true}
use rabbitmq_kit_go.Errors.{
  Error, sentinel, publish_error, no_channel, message, expected_retry_error, is_expected_retry,
}
use rabbitmq_kit_go.Errors.Chain.{Marked, is_expected_retry_iff_Marked}

abbrev no_route : Error
no_route = publish_error "orders" "order.created" (sentinel no_channel)

message-no_route :
    message no_route
    ≡ "rabbitmq: publish failed [exchange=orders, routing_key=order.created]: rabbitmq: no active channel"
unfolding message
message-no_route = refl

-- A retry that is expected, behind an error of the library.
abbrev awaited : Error
awaited = publish_error "orders" "order.created" (expected_retry_error (sentinel no_channel))

is_expected_retry_iff_Marked_example : (is_expected_retry awaited ≡ true) ↔ Marked awaited
is_expected_retry_iff_Marked_example = is_expected_retry_iff_Marked awaited
