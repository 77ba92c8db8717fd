-- ===== src/Broker/Consumer/Settle.antt =====
-- How a delivery is settled.
use rabbitmq_kit_go.Prelude.{
  ◌≡◌, refl, ◌≢◌, inl, inr, Bool, true, false, none, some, List, [], ◌∷◌, ◌++◌, arith,
  if◌then◌else◌, Bool-cases, Option-cases, ap, ◌∙◌,
}
use mathlib.Core.List
use rabbitmq_kit_go.Prelude.Int.{leb_int}
use rabbitmq_kit_go.Errors.{Error, nil, is_nil, max_retries_exceeded, sentinel}
use rabbitmq_kit_go.Amqp.{Delivery, Publishing}
use rabbitmq_kit_go.Router.{get_handler}
use rabbitmq_kit_go.Router.Message.{get_type, get_retry_count}
use rabbitmq_kit_go.Broker.Retry.{retry}
use rabbitmq_kit_go.Broker.Retry.Laws.{IsRetryCopy, retry_copy, retry_exhausted}
use rabbitmq_kit_go.Broker.Consumer.{
  Settlement, ack, Services, Consumer, received, nack, log, warn, Env, World, settle, with_trace_id,
  admit, failed, run_handler, process, handle_delivery, written, called,
}
use rabbitmq_kit_go.Broker.Consumer.Told.{
  verdict, verdict_nil, verdict_ne, failed-settled, failed-by_handlers, succeeded-settled,
  succeeded-by_handlers, admit-settled, admit-by_handlers, received-settled, received-by_handlers,
}

-- What may happen to a delivery, and how its worker settles it then. `d` is the delivery with its
-- trace id, and `w` the workers' world once the breaker has answered. `Retry` works on the headers
-- that the handler has left. The last index is what the handler itself tells the broker.
pub data Fate {S H : Type 0} (v : Services S H) (c : Consumer H) (e : Env) (d : Delivery)
    (ok : Bool) (w : World S) : Settlement → List Settlement → Type 0 where
  -- the breaker rejects it
  blocked : ok ≡ false → Fate v c e d ok w (nack false) []
  -- its type has no handler
  unknown :
      ok ≡ true
      → get_handler (get_type v.unmarshal_type d) c.router ≡ none
      → Fate v c e d ok w ack []
  -- its handler succeeds
  handled :
      (h : H)
      → ok ≡ true
      → get_handler (get_type v.unmarshal_type d) c.router ≡ some h
      → (v.execute h d w.publisher).0 ≡ nil
      → Fate v c e d ok w ack (v.settles h d w.publisher)
  -- its handler fails, and a copy with the next count was published without an error
  requeued :
      (h : H) (p : Publishing)
      → ok ≡ true
      → get_handler (get_type v.unmarshal_type d) c.router ≡ some h
      → (v.execute h d w.publisher).0 ≢ nil
      → leb_int c.retry_handler.max_retries (get_retry_count (written v h d w.publisher)) ≡ false
      → IsRetryCopy (written v h d w.publisher) p
      → (v.publish d.exchange d.routing_key p (v.execute h d w.publisher).1).0 ≡ nil
      → Fate v c e d ok w ack (v.settles h d w.publisher)
  -- its handler fails, and its count has reached the limit
  exhausted :
      (h : H)
      → ok ≡ true
      → get_handler (get_type v.unmarshal_type d) c.router ≡ some h
      → (v.execute h d w.publisher).0 ≢ nil
      → leb_int c.retry_handler.max_retries (get_retry_count (written v h d w.publisher)) ≡ true
      → Fate v c e d ok w (nack false) (v.settles h d w.publisher)
  -- its handler fails, and so does publishing the copy
  refused :
      (h : H) (p : Publishing)
      → ok ≡ true
      → get_handler (get_type v.unmarshal_type d) c.router ≡ some h
      → (v.execute h d w.publisher).0 ≢ nil
      → leb_int c.retry_handler.max_retries (get_retry_count (written v h d w.publisher)) ≡ false
      → IsRetryCopy (written v h d w.publisher) p
      → (v.publish d.exchange d.routing_key p (v.execute h d w.publisher).1).0 ≢ nil
      → Fate v c e d ok w (nack false) (v.settles h d w.publisher)

is_nil→eq : (err : Error) → is_nil err ≡ true → err ≡ nil
is_nil→eq err h = ground arith

is_nil→ne : (err : Error) → is_nil err ≡ false → err ≢ nil
is_nil→ne err h = ground arith

module _ {S H : Type 0} (v : Services S H) (c : Consumer H) (e : Env) (d : Delivery) (ok : Bool)
    (w : World S) where
  -- The worker has settled the delivery once more than before, and its handler has told the broker
  -- what it does, with the fate that calls for both.
  abbrev Settled : World S → Type 0
  Settled w' =
      (x : Settlement) × (own : List Settlement) × Fate v c e d ok w x own
      × (w'.settled ≡ w.settled ++ x ∷ [])
      × (w'.by_handlers ≡ w.by_handlers ++ own)

module _ {S H : Type 0} (v : Services S H) (c : Consumer H) (e : Env) (d : Delivery)
    (w : World S) where
  failed-Settled :
      (h : H)
      → get_handler (get_type v.unmarshal_type d) c.router ≡ some h
      → is_nil (v.execute h d w.publisher).0 ≡ false
      → Settled v c e d true w
          (failed v c (v.execute h d w.publisher).0 e (written v h d w.publisher) (called v h d w))
  failed-Settled h found err =
      elim (Bool-cases (leb_int c.retry_handler.max_retries (get_retry_count left))) [
        | inl over ↦ (
          nack false,
          own,
          exhausted h refl found (is_nil→ne _ err) over,
          settled_as (sentinel max_retries_exceeded) (nack false)
              (ap (λ r. r.0.0) (retry_exhausted v.publish e.retry_now c.retry_handler left s over))
              (verdict_ne (sentinel max_retries_exceeded) refl),
          failed-by_handlers v c _ e left (called v h d w),
        )
        | inr below ↦
            let (p, copy, result, _) =
              retry_copy v.publish e.retry_now c.retry_handler left s below in
            let sent : Error = (v.publish d.exchange d.routing_key p s).0 in
            elim (Bool-cases (is_nil sent)) [
              | inl good ↦ (
                ack,
                own,
                requeued h p refl found (is_nil→ne _ err) below copy (is_nil→eq _ good),
                settled_as sent ack result (verdict_nil sent good),
                failed-by_handlers v c _ e left (called v h d w),
              )
              | inr bad ↦ (
                nack false,
                own,
                refused h p refl found (is_nil→ne _ err) below copy (is_nil→ne _ bad),
                settled_as sent (nack false) result (verdict_ne sent bad),
                failed-by_handlers v c _ e left (called v h d w),
              )
            ]
      ]
    where
      s : S
      s = (v.execute h d w.publisher).1

      left : Delivery
      left = written v h d w.publisher

      own : List Settlement
      own = v.settles h d w.publisher

      settled_as :
          (r : Error) (x : Settlement)
          → (retry v.publish e.retry_now c.retry_handler left s).0.0 ≡ r
          → verdict r ≡ x
          → (failed v c (v.execute h d w.publisher).0 e left (called v h d w)).settled
            ≡ w.settled ++ x ∷ []
      settled_as r x q u =
          failed-settled v c (v.execute h d w.publisher).0 e left (called v h d w)
          ∙ ap (λ y. w.settled ++ y ∷ []) (ap verdict q ∙ u)

  run_handler-Settled :
      (h : H)
      → get_handler (get_type v.unmarshal_type d) c.router ≡ some h
      → Settled v c e d true w (run_handler v c h e d w)
  unfolding run_handler
  run_handler-Settled h found = elim (Bool-cases (is_nil (v.execute h d w.publisher).0)) [
    | inl good ↦ (
      ack,
      v.settles h d w.publisher,
      handled h refl found (is_nil→eq _ good),
      rw (run_handler, good) (succeeded-settled e (called v h d w)),
      rw (run_handler, good) (succeeded-by_handlers e (called v h d w)),
    )
    | inr bad ↦ rw (run_handler, bad) (failed-Settled h found bad)
  ]

  process-Settled : Settled v c e d true w (process v c e d w)
  unfolding process
  process-Settled = elim (Option-cases (get_handler (get_type v.unmarshal_type d) c.router)) [
    | inl absent ↦ (
      ack,
      [],
      unknown refl absent,
      rw (process, absent),
      rw (process, absent) (simp List.append-nil),
    )
    | inr (h, found) ↦ rw (process, found) (run_handler-Settled h found)
  ]

answered-Settled :
    {S H : Type 0} (v : Services S H) (c : Consumer H) (e : Env) (d : Delivery) (ok : Bool)
    (w : World S)
    → Settled v c e d ok w (
        if ok
        then process v c e d w
        else settle
            (nack false)
            (log warn "Consumer Worker: Circuit breaker is open, rejecting message" w))
answered-Settled v c e d true w = process-Settled v c e d w
answered-Settled v c e d false w = (nack false, [], blocked refl, refl, simp List.append-nil)

-- Whatever the breaker, the handler, the publisher and the broker do, its worker settles a delivery
-- exactly once, and as its fate calls for: acknowledged if its type has no handler, if its handler
-- succeeded, or if a copy was published; else rejected without being requeued. The worker does so
-- without regard to what the handler has told the broker itself, which is added to the settlements
-- by handlers as it is, and is nothing where no handler is called: a delivery whose handler
-- acknowledges or rejects it is settled twice.
pub settled_once :
    {S H : Type 0} (v : Services S H) (c : Consumer H) (e : Env) (d : Delivery) (w : World S)
    → let d' = with_trace_id e.uuid d in
      let (ok, admitted) = admit e (received v c d' w) in
      let w' = handle_delivery v c e d w in
      (x : Settlement) × (own : List Settlement) × Fate v c e d' ok admitted x own
      × (w'.settled ≡ w.settled ++ x ∷ [])
      × (w'.by_handlers ≡ w.by_handlers ++ own)
unfolding handle_delivery
settled_once v c e d w =
    let d' = with_trace_id e.uuid d in
    let r = received v c d' w in
    let (x, own, fate, added, told) = answered-Settled v c e d' (admit e r).0 (admit e r).1 in
    (
      x,
      own,
      fate,
      added ∙ ap (λ l. l ++ x ∷ []) (admit-settled e r ∙ received-settled v c d' w),
      told ∙ ap (λ l. l ++ own) (admit-by_handlers e r ∙ received-by_handlers v c d' w),
    )
