-- ===== src/EventBus/Bus/Consuming.antt =====
-- eventbus.go: handlers and consumers, over what an application does with a bus.
use rabbitmq_kit_go.Prelude.{
  ℕ, ◌≡◌, refl, ◌∙◌, Bool, true, false, ◌||◌, String, Option, none, some, List, [], ◌∷◌,
  if◌then◌else◌, arith,
}
use rabbitmq_kit_go.Prelude.Int.{ℤ}
use rabbitmq_kit_go.Errors.{Error, sentinel, no_handlers_registered}
use rabbitmq_kit_go.Broker.Consumer.Workers.{Phase, consume}
use rabbitmq_kit_go.EventBus.Bus.{
  EventBus, register_handler, register_dlq_handler, start_consume, start_consume_dlq,
  reset_circuit_breaker,
}

-- What an application does with a bus.
pub data Op (H : Type 0) : Type 0 where
  handler : String → H → Op H
  dlq_handler : String → H → Op H
  start : (now : ℕ) → (refused : Error) → String → ℤ → Op H
  reset_breaker : ℕ → Op H

abbrev has : {A : Type 0} → Option A → Bool
has none = false
has (some x) = true

abbrev any : {A : Type 0} → List A → (A → Bool) → Bool
any [] p = false
any (x ∷ xs) p = p x || any xs p

or_false : (x : Bool) → (x || false) ≡ x
or_false true = refl
or_false false = refl

or_shift : (x y z w : Bool) → x ≡ (y || z) → (w || x) ≡ ((y || w) || z)
or_shift x y z w h = ground arith

module _ {H : Type 0} where
  unfoldable pub take : Op H → EventBus H → EventBus H
  take (handler t h) b = register_handler t h b
  take (dlq_handler t h) b = register_dlq_handler t h b
  take (start now refused queue workers) b = (start_consume now refused queue workers b).1
  take (reset_breaker now) b = (reset_circuit_breaker now b).1

  unfoldable pub run : List (Op H) → EventBus H → EventBus H
  run [] b = b
  run (op ∷ ops) b = run ops (take op b)

  abbrev pub is_handler : Op H → Bool
  is_handler (handler t h) = true
  is_handler _ = false

  abbrev pub is_dlq_handler : Op H → Bool
  is_dlq_handler (dlq_handler t h) = true
  is_dlq_handler _ = false

  take-client : (op : Op H) (b : EventBus H) → (take op b).client ≡ b.client
  unfolding take register_handler register_dlq_handler start_consume reset_circuit_breaker
  take-client op b = ground arith

  run-client : (ops : List (Op H)) (b : EventBus H) → (run ops b).client ≡ b.client
  unfolding run
  run-client [] b = refl
  run-client (op ∷ ops) b = run-client ops (take op b) ∙ take-client op b

  take-has :
      (op : Op H) (b : EventBus H)
      → (has (take op b).router ≡ (is_handler op || has b.router))
        × (has (take op b).dlq_router ≡ (is_dlq_handler op || has b.dlq_router))
  unfolding take register_handler register_dlq_handler start_consume reset_circuit_breaker
  take-has op b = ground arith

  run-has :
      (ops : List (Op H)) (b : EventBus H)
      → (has (run ops b).router ≡ (any ops is_handler || has b.router))
        × (has (run ops b).dlq_router ≡ (any ops is_dlq_handler || has b.dlq_router))
  unfolding run
  run-has [] b = (refl, refl)
  run-has (op ∷ ops) b =
      let (main, dlq) = take-has op b in
      let (rest, rest_dlq) = run-has ops (take op b) in
      (
        rest
            ∙ or_shift (has (take op b).router) (is_handler op) (has b.router) (any ops is_handler)
                main,
        rest_dlq
            ∙ or_shift (has (take op b).dlq_router) (is_dlq_handler op) (has b.dlq_router)
                (any ops is_dlq_handler) dlq,
      )

  consumes :
      (now : ℕ) (refused : Error) (queue : String) (workers : ℤ) (b : EventBus H)
      → (start_consume now refused queue workers b).0 ≡ (
          if has b.router
          then consume b.client refused queue workers
          else (sentinel no_handlers_registered, []))
  unfolding start_consume
  consumes now refused queue workers b = ground arith

  consumes_dlq :
      (now : ℕ) (refused : Error) (queue : String) (workers : ℤ) (b : EventBus H)
      → (start_consume_dlq now refused queue workers b).0 ≡ (
          if has b.dlq_router
          then consume b.client refused queue workers
          else (sentinel no_handlers_registered, []))
  unfolding start_consume_dlq
  consumes_dlq now refused queue workers b = ground arith

  -- After any sequence of registrations, starts and resets on a bus that had no handlers: a start gives
  -- ErrNoHandlersRegistered and no workers unless a handler was registered in the sequence, and else
  -- what `Consume` gives on the bus's client. The same holds of the dead letters, with the handlers
  -- that were registered for those and no others.
  pub start_consume_lem :
      (ops : List (Op H)) (b : EventBus H) (now : ℕ) (refused : Error) (queue : String)
      (workers : ℤ)
      → b.router ≡ none
      → b.dlq_router ≡ none
      → let started = consume b.client refused queue workers in
        let refusal : Error × List Phase = (sentinel no_handlers_registered, []) in
        ((start_consume now refused queue workers (run ops b)).0
          ≡ (if any ops is_handler then started else refusal))
        × ((start_consume_dlq now refused queue workers (run ops b)).0
            ≡ (if any ops is_dlq_handler then started else refusal))
  start_consume_lem ops b now refused queue workers fresh fresh_dlq =
      let (main, dlq) = run-has ops b in
      (
        consumes now refused queue workers (run ops b)
            ∙ rw (run-client ops b, main, fresh, or_false (any ops is_handler)) refl,
        consumes_dlq now refused queue workers (run ops b)
            ∙ rw (run-client ops b, dlq, fresh_dlq, or_false (any ops is_dlq_handler)) refl,
      )
