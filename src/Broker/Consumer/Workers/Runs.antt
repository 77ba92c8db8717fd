-- ===== src/Broker/Consumer/Workers/Runs.antt =====
-- Runs of the workers, and the breaker that they share.
use rabbitmq_kit_go.Prelude.{
  ℕ, ◌+◌, ◌≡◌, refl, Option, none, some, List, [], ◌∷◌, length, get_elem?, arith, Option-cases,
  Bool-cases, inl, inr,
}
use rabbitmq_kit_go.Errors.{Error}
use rabbitmq_kit_go.Amqp.{Delivery}
use rabbitmq_kit_go.Router.{get_handler}
use rabbitmq_kit_go.Router.Message.{get_type}
use rabbitmq_kit_go.CircuitBreaker.{
  allow_request, record_success, record_failure, CircuitBreaker, allow, success, failure,
}
use rabbitmq_kit_go.CircuitBreaker
use rabbitmq_kit_go.CircuitBreaker.Invariant.{Inv, step-Inv}
use rabbitmq_kit_go.Broker.Consumer.{
  with_trace_id, Services, Consumer, Env, World, admit, received, on_failure, on_success,
  after_retry,
}
use rabbitmq_kit_go.Broker.Consumer.Workers.{
  Phase, idle, taken, admitted, failing, retrying, retried, acked, call, move, turn, Workers, step,
  run,
}
use rabbitmq_kit_go.Broker.Consumer.Workers.Interleave.{in_progress, run-load}

-- The invariant of the breaker, where there is one.
abbrev pub BreakerInv : Option CircuitBreaker → Type 0
BreakerInv none = Unit
BreakerInv (some cb) = Inv cb

-- The same for a breaker before and after a call, by cases on whether there is one.
admit-Inv :
    {S : Type 0} (e : Env) (o : Option CircuitBreaker) (w : World S)
    → w.breaker ≡ o
    → BreakerInv o
    → BreakerInv (admit e w).1.breaker
unfolding admit allow_request CircuitBreaker.step
admit-Inv e none w h b = rw (h, admit) (rw h tt)
admit-Inv e (some cb) w h b = rw (h, admit) (step-Inv (allow e.allow_now e.allow_later) cb b)

on_failure-Inv :
    {S : Type 0} (e : Env) (o : Option CircuitBreaker) (w : World S)
    → w.breaker ≡ o
    → BreakerInv o
    → BreakerInv (on_failure e w).breaker
unfolding on_failure record_failure CircuitBreaker.step
on_failure-Inv e none w h b = rw h tt
on_failure-Inv e (some cb) w h b = rw h (step-Inv (failure e.failure_now e.failure_later) cb b)

on_success-Inv :
    {S : Type 0} (e : Env) (o : Option CircuitBreaker) (w : World S)
    → w.breaker ≡ o
    → BreakerInv o
    → BreakerInv (on_success e w).breaker
unfolding on_success record_success CircuitBreaker.step
on_success-Inv e none w h b = rw h tt
on_success-Inv e (some cb) w h b = rw h (step-Inv (success e.success_now) cb b)

call-breaker :
    {S H : Type 0} (v : Services S H) (c : Consumer H) (h : H) (e : Env) (d : Delivery)
    (w : World S)
    → (call v c h e d w).1.breaker ≡ w.breaker
unfolding call
call-breaker v c h e d w = ground arith

after_retry-breaker :
    {S : Type 0} (err : Error) (d : Delivery) (w : World S)
    → (after_retry err d w).breaker ≡ w.breaker
unfolding after_retry
after_retry-breaker err d w = ground arith

received-breaker :
    {S H : Type 0} (v : Services S H) (c : Consumer H) (d : Delivery) (w : World S)
    → (received v c d w).breaker ≡ w.breaker
unfolding received
received-breaker v c d w = ground arith

module _ {S H : Type 0} (v : Services S H) (c : Consumer H) where
  move-Inv :
      (e : Env) (p : Phase) (w : World S)
      → BreakerInv w.breaker
      → BreakerInv (move v c e p w).1.breaker
  unfolding move
  move-Inv e idle w b = b
  move-Inv e (taken d) w b = elim (Bool-cases (admit e w).0) [
    | inl h ↦ rw h (admit-Inv e w.breaker w refl b)
    | inr h ↦ rw h (admit-Inv e w.breaker w refl b)
  ]
  move-Inv e (admitted d) w b =
      elim (Option-cases (get_handler (get_type v.unmarshal_type d) c.router)) [
        | inl h ↦ rw (h, move) b
        | inr (handler, h) ↦ rw (h, move, call-breaker v c handler e d w) b
      ]
  move-Inv e (failing d) w b = on_failure-Inv e w.breaker w refl b
  move-Inv e (retrying d) w b = b
  move-Inv e (retried err d) w b = rw (after_retry-breaker err d w) b
  move-Inv e acked w b = on_success-Inv e w.breaker w refl b

  turn-Inv :
      (e : Env) (p : Phase) (queue : List Delivery) (w : World S)
      → BreakerInv w.breaker
      → BreakerInv (turn v c e p queue w).1.breaker
  unfolding turn
  turn-Inv e idle [] w b = b
  turn-Inv e idle (d ∷ queue) w b = rw (received-breaker v c (with_trace_id e.uuid d) w) b
  turn-Inv e (taken d) queue w b = move-Inv e (taken d) w b
  turn-Inv e (admitted d) queue w b = move-Inv e (admitted d) w b
  turn-Inv e (failing d) queue w b = move-Inv e (failing d) w b
  turn-Inv e (retrying d) queue w b = move-Inv e (retrying d) w b
  turn-Inv e (retried err d) queue w b = move-Inv e (retried err d) w b
  turn-Inv e acked queue w b = move-Inv e acked w b

  run-Inv :
      (turns : List (ℕ × Env)) (s : Workers S)
      → BreakerInv s.world.breaker
      → BreakerInv (run v c turns s).world.breaker
  unfolding run step
  run-Inv [] s b = b
  run-Inv ((i, e) ∷ turns) s b = elim (Option-cases (get_elem? s.phases i)) [
    | inl h ↦ run-Inv turns (step v c i e s) (rw (h, step) b)
    | inr (p, h) ↦ run-Inv turns (step v c i e s) (rw (h, step) (turn-Inv e p s.queue s.world b))
  ]

  -- However the turns of the workers interleave, the numbers of the deliveries stay in balance:
  -- those that their workers have settled, those that a worker has yet to settle and those that wait
  -- add up to what they were; and the breaker that the workers share keeps its invariant.
  pub run_lem :
      (turns : List (ℕ × Env)) (s : Workers S)
      → BreakerInv s.world.breaker
      → let s' = run v c turns s in
        (length s'.world.settled + in_progress s'.phases + length s'.queue
          ≡ length s.world.settled + in_progress s.phases + length s.queue)
        × BreakerInv s'.world.breaker
  run_lem turns s b = (run-load v c turns s, run-Inv turns s b)
