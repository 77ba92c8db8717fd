-- ===== src/Broker/Consumer/Workers/Alone.antt =====
-- A worker whose turns no other worker interrupts.
use rabbitmq_kit_go.Prelude.{
  ℕ, suc, ◌≡◌, refl, ◌∙◌, false, none, some, List, [], ◌∷◌, ◌++◌, if◌then◌else◌, Option-cases,
  Bool-cases, inl, inr,
}
use rabbitmq_kit_go.Errors.{is_nil}
use rabbitmq_kit_go.Amqp.{Delivery}
use rabbitmq_kit_go.Router.{get_handler}
use rabbitmq_kit_go.Router.Message.{get_type}
use rabbitmq_kit_go.Broker.Consumer.{
  Settlement, Services, Consumer, Env, World, with_trace_id, received, admit, settle, nack, log,
  warn, process, run_handler, failed, succeeded, handle_delivery,
}
use rabbitmq_kit_go.Broker.Consumer.Settle.{Fate, settled_once}
use rabbitmq_kit_go.Broker.Consumer.Workers.{idle, taken, admitted, call, move, turn, finish}

module _ {S H : Type 0} (v : Services S H) (c : Consumer H) where
  finish-call :
      (h : H) (e : Env) (d : Delivery) (w : World S)
      → finish v c 4 e (call v c h e d w).0 (call v c h e d w).1 ≡ some (run_handler v c h e d w)
  unfolding finish call run_handler failed succeeded move
  finish-call h e d w = elim (Bool-cases (is_nil (v.execute h d w.publisher).0)) [
    | inl good ↦ rw good refl
    | inr bad ↦ rw bad refl
  ]

  move_unknown :
      (e : Env) (d : Delivery) (w : World S)
      → get_handler (get_type v.unmarshal_type d) c.router ≡ none
      → move v c e (admitted d) w ≡ (idle, process v c e d w)
  unfolding move process
  move_unknown e d w h = rw (h, move, process) refl

  move_handler :
      (handler : H) (e : Env) (d : Delivery) (w : World S)
      → get_handler (get_type v.unmarshal_type d) c.router ≡ some handler
      → move v c e (admitted d) w ≡ call v c handler e d w
  unfolding move
  move_handler handler e d w h = rw (h, move) refl

  process_handler :
      (handler : H) (e : Env) (d : Delivery) (w : World S)
      → get_handler (get_type v.unmarshal_type d) c.router ≡ some handler
      → process v c e d w ≡ run_handler v c handler e d w
  unfolding process
  process_handler handler e d w h = rw (h, process) refl

  finish_past_breaker :
      (fuel : ℕ) (e : Env) (d : Delivery) (w : World S)
      → finish v c (suc fuel) e (admitted d) w
        ≡ finish v c fuel e (move v c e (admitted d) w).0 (move v c e (admitted d) w).1
  unfolding finish
  finish_past_breaker fuel e d w = refl

  finish_at_breaker :
      (fuel : ℕ) (e : Env) (d : Delivery) (w : World S)
      → finish v c (suc fuel) e (taken d) w
        ≡ finish v c fuel e (move v c e (taken d) w).0 (move v c e (taken d) w).1
  unfolding finish
  finish_at_breaker fuel e d w = refl

  finish_at_head : (fuel : ℕ) (e : Env) (w : World S) → finish v c (suc fuel) e idle w ≡ some w
  unfolding finish
  finish_at_head fuel e w = refl

  finish-process :
      (e : Env) (d : Delivery) (w : World S)
      → finish v c 5 e (admitted d) w ≡ some (process v c e d w)
  finish-process e d w =
      finish_past_breaker 4 e d w
      ∙ elim (Option-cases (get_handler (get_type v.unmarshal_type d) c.router)) [
        | inl h ↦ rw (move_unknown e d w h) (finish_at_head 3 e (process v c e d w))
        | inr (handler, h) ↦
            rw (move_handler handler e d w h, process_handler handler e d w h)
              (finish-call handler e d w)
      ]

  finish-taken :
      (e : Env) (d : Delivery) (w : World S)
      → finish v c 6 e (taken d) w
        ≡ some (
            if (admit e w).0
            then process v c e d (admit e w).1
            else settle (nack false) (
                log warn "Consumer Worker: Circuit breaker is open, rejecting message"
                  (admit e w).1))
  unfolding move
  finish-taken e d w = finish_at_breaker 5 e d w ∙ elim (Bool-cases (admit e w).0) [
    | inl ok ↦ rw ok (finish-process e d (admit e w).1)
    | inr blocked ↦ rw blocked (finish_at_head 4 e _)
  ]

  -- The turns together do what `handle_delivery` does as a whole.
  alone_lem :
      (e : Env) (d : Delivery) (queue : List Delivery) (w : World S)
      → let ((phase, queue'), w') = turn v c e idle (d ∷ queue) w in
        (finish v c 6 e phase w' ≡ some (handle_delivery v c e d w)) × (queue' ≡ queue)
  unfolding turn handle_delivery
  alone_lem e d queue w =
      (finish-taken e (with_trace_id e.uuid d) (received v c (with_trace_id e.uuid d) w), refl)

  -- A worker whose turns no other worker interrupts is done with a delivery in six turns from its
  -- taking it at most. By then it has taken no other delivery, and settled this one exactly once, as
  -- its fate calls for: acknowledged if its type has no handler, if its handler succeeded, or if a
  -- copy was published; else rejected without being requeued.
  pub alone_settles :
      (e : Env) (d : Delivery) (queue : List Delivery) (w : World S)
      → let ((phase, queue'), w') = turn v c e idle (d ∷ queue) w in
        let d' = with_trace_id e.uuid d in
        let (ok, past) = admit e (received v c d' w) in
        (queue' ≡ queue)
        × ((done : World S) × (finish v c 6 e phase w' ≡ some done)
            × ((x : Settlement) × (own : List Settlement) × Fate v c e d' ok past x own
                × (done.settled ≡ w.settled ++ x ∷ [])
                × (done.by_handlers ≡ w.by_handlers ++ own)))
  alone_settles e d queue w =
      let (finished, rest) = alone_lem e d queue w in
      (rest, (handle_delivery v c e d w, finished, settled_once v c e d w))
