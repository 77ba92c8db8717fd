-- ===== src/Broker/Consumer/Told.antt =====
-- What each part of a worker's loop adds to the settlements of the workers and of the handlers.
use rabbitmq_kit_go.Prelude.{
  ◌≡◌, refl, inl, inr, true, false, not, ◌||◌, [], ◌∷◌, ◌++◌, arith, if◌then◌else◌, Bool-cases,
}
use rabbitmq_kit_go.Errors.{Error, nil, is_nil, is, is_expected_retry, max_retries_exceeded}
use rabbitmq_kit_go.Amqp.{Delivery}
use rabbitmq_kit_go.Broker.Retry.{retry}
use rabbitmq_kit_go.Broker.Consumer.{
  Settlement, ack, Services, Consumer, received, nack, Env, World, admit, failed, succeeded,
  after_retry, on_failure, on_success,
}

-- How the switch on the error of `Retry` settles the delivery.
abbrev pub verdict : Error → Settlement
verdict err = if is err max_retries_exceeded || not (is_nil err) then nack false else ack

pub verdict_nil : (err : Error) → is_nil err ≡ true → verdict err ≡ ack
unfolding is
verdict_nil nil h = refl
verdict_nil _ h = cc

pub verdict_ne : (err : Error) → is_nil err ≡ false → verdict err ≡ nack false
verdict_ne err h = ground arith

pub after_retry-settled :
    {S : Type 0} (err : Error) (d : Delivery) (w : World S)
    → (after_retry err d w).settled ≡ w.settled ++ verdict err ∷ []
unfolding after_retry
after_retry-settled err d w = ground arith

pub failed-settled :
    {S H : Type 0} (v : Services S H) (c : Consumer H) (err : Error) (e : Env) (d : Delivery)
    (w : World S)
    → (failed v c err e d w).settled
      ≡ w.settled ++ verdict (retry v.publish e.retry_now c.retry_handler d w.publisher).0.0 ∷ []
unfolding failed on_failure
failed-settled v c err e d w = elim (Bool-cases (is_expected_retry err)) [
  | inl x ↦ rw (failed, x) (after_retry-settled _ _ _)
  | inr x ↦ rw (failed, x) (after_retry-settled _ _ _)
]

pub failed-by_handlers :
    {S H : Type 0} (v : Services S H) (c : Consumer H) (err : Error) (e : Env) (d : Delivery)
    (w : World S)
    → (failed v c err e d w).by_handlers ≡ w.by_handlers
unfolding failed on_failure after_retry
failed-by_handlers v c err e d w = ground arith

pub succeeded-by_handlers :
    {S : Type 0} (e : Env) (w : World S) → (succeeded e w).by_handlers ≡ w.by_handlers
unfolding succeeded on_success
succeeded-by_handlers e w = ground arith

pub admit-by_handlers :
    {S : Type 0} (e : Env) (w : World S) → (admit e w).1.by_handlers ≡ w.by_handlers
unfolding admit
admit-by_handlers e w = ground arith

pub received-by_handlers :
    {S H : Type 0} (v : Services S H) (c : Consumer H) (d : Delivery) (w : World S)
    → (received v c d w).by_handlers ≡ w.by_handlers
unfolding received
received-by_handlers v c d w = ground arith

pub succeeded-settled :
    {S : Type 0} (e : Env) (w : World S) → (succeeded e w).settled ≡ w.settled ++ ack ∷ []
unfolding succeeded on_success
succeeded-settled e w = ground arith

pub admit-settled : {S : Type 0} (e : Env) (w : World S) → (admit e w).1.settled ≡ w.settled
unfolding admit
admit-settled e w = ground arith

pub received-settled :
    {S H : Type 0} (v : Services S H) (c : Consumer H) (d : Delivery) (w : World S)
    → (received v c d w).settled ≡ w.settled
unfolding received
received-settled v c d w = ground arith
