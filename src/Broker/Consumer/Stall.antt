-- ===== src/Broker/Consumer/Stall.antt =====
-- A half-open breaker whose trial requests are used up, and how it comes to that.
use rabbitmq_kit_go.Prelude.{
  ℕ, ◌+◌, ◌≤◌, ◌<◌, ◌≡◌, refl, ◌∙◌, ap, sym, Bool, true, false, String, none, some, List, [], ◌∷◌,
  ◌++◌, arith, length, replicate, All,
}
use mathlib.Core.Path.{subst}
use mathlib.Core.List.{append-nil, append_assoc}
use rabbitmq_kit_go.Prelude.Int.{pos, max_int, leb_int, sub_time}
use rabbitmq_kit_go.Amqp.{Delivery}
use rabbitmq_kit_go.Router.{get_handler}
use rabbitmq_kit_go.Router.Message.{get_type}
use rabbitmq_kit_go.CircuitBreaker.{CircuitBreaker, open_, half_open, allow_request}
use rabbitmq_kit_go.Broker.Consumer.{
  nack, settle, log, warn, Services, Consumer, Env, World, with_trace_id, admit, received, process,
  handle_delivery, work,
}

-- Half open, with `a` of at most `m` trial requests used.
pub record Trial (a m : ℕ) (cb : CircuitBreaker) : Type 0 where
  pub state : cb.state ≡ half_open
  pub requests : cb.half_open_requests ≡ pos a
  pub limit : cb.config.half_open_max_requests ≡ pos m

allow_full :
    (cb : CircuitBreaker) (m now later : ℕ)
    → Trial m m cb
    → allow_request now later cb ≡ (false, cb)
unfolding allow_request
allow_full cb m now later t = ground arith

allow_next :
    (cb : CircuitBreaker) (a m now later : ℕ)
    → Trial a m cb
    → a < m
    → m ≤ max_int
    → ((allow_request now later cb).0 ≡ true) × Trial (a + 1) m (allow_request now later cb).1
unfolding allow_request
allow_next cb a m now later t l k = ground arith

allow_probe :
    (cb : CircuitBreaker) (m now later : ℕ)
    → cb.state ≡ open_
    → cb.config.half_open_max_requests ≡ pos m
    → leb_int cb.config.reset_timeout (sub_time now cb.last_state_change_time) ≡ true
    → ((allow_request now later cb).0 ≡ true) × Trial 0 m (allow_request now later cb).1
unfolding allow_request
allow_probe cb m now later s l t = ground arith

module _ {S H : Type 0} (v : Services S H) (c : Consumer H) where
  received-breaker : (d : Delivery) (w : World S) → (received v c d w).breaker ≡ w.breaker
  unfolding received
  received-breaker d w = ground arith

  received-publisher : (d : Delivery) (w : World S) → (received v c d w).publisher ≡ w.publisher
  unfolding received
  received-publisher d w = ground arith

  received-settled : (d : Delivery) (w : World S) → (received v c d w).settled ≡ w.settled
  unfolding received
  received-settled d w = ground arith

  admitted :
      (e : Env) (w : World S) (cb : CircuitBreaker) (ok : Bool) (cb' : CircuitBreaker)
      → w.breaker ≡ some cb
      → allow_request e.allow_now e.allow_later cb ≡ (ok, cb')
      → admit e w ≡ (ok, record w { breaker = some cb' })
  unfolding admit
  admitted e w cb ok cb' b a =
      rw (admit, b) (ap (λ (p : Bool × CircuitBreaker). (p.0, record w { breaker = some p.1 })) a)

  rejected :
      (e : Env) (d : Delivery) (w w' : World S)
      → admit e (received v c (with_trace_id e.uuid d) w) ≡ (false, w')
      → handle_delivery v c e d w
        ≡ settle
            (nack false)
            (log warn "Consumer Worker: Circuit breaker is open, rejecting message" w')
  unfolding handle_delivery
  rejected e d w w' a = rw (handle_delivery, a)

  passed :
      (e : Env) (d : Delivery) (w w' : World S)
      → admit e (received v c (with_trace_id e.uuid d) w) ≡ (true, w')
      → handle_delivery v c e d w ≡ process v c e (with_trace_id e.uuid d) w'
  unfolding handle_delivery
  passed e d w w' a = rw (handle_delivery, a)

  stalled_once :
      (cb : CircuitBreaker) (m : ℕ) (e : Env) (d : Delivery) (w : World S)
      → w.breaker ≡ some cb
      → Trial m m cb
      → ((handle_delivery v c e d w).breaker ≡ some cb)
        × ((handle_delivery v c e d w).publisher ≡ w.publisher)
        × ((handle_delivery v c e d w).settled ≡ w.settled ++ nack false ∷ [])
  stalled_once cb m e d w b t =
      let d' = with_trace_id e.uuid d in
      let r = received v c d' w in
      let step = rejected e d w _ (
        admitted e r cb false cb (received-breaker d' w ∙ b)
          (allow_full cb m e.allow_now e.allow_later t)) in
      (
        ap (λ (x : World S). x.breaker) step,
        ap (λ (x : World S). x.publisher) step ∙ received-publisher d' w,
        ap (λ (x : World S). x.settled) step
            ∙ ap (λ l. l ++ nack false ∷ []) (received-settled d' w),
      )

  -- With its trial requests used up and no result outstanding, a half-open breaker stays as it is
  -- for ever: every later delivery is rejected, and no handler is called.
  pub stalled :
      (cb : CircuitBreaker) (m : ℕ) (ds : List (Env × Delivery)) (w : World S)
      → w.breaker ≡ some cb
      → Trial m m cb
      → ((work v c ds w).breaker ≡ some cb)
        × ((work v c ds w).publisher ≡ w.publisher)
        × ((work v c ds w).settled ≡ w.settled ++ replicate (length ds) (nack false))
  unfolding work
  stalled cb m [] w b t = (b, refl, sym (append-nil w.settled))
  stalled cb m ((e, d) ∷ ds) w b t =
      let (breaker', publisher', settled') = stalled_once cb m e d w b t in
      let (breaker'', publisher'', settled'') =
        stalled cb m ds (handle_delivery v c e d w) breaker' t in
      (
        breaker'',
        publisher'' ∙ publisher',
        settled''
            ∙ ap (λ l. l ++ replicate (length ds) (nack false)) settled'
            ∙ append_assoc w.settled (nack false ∷ []) (replicate (length ds) (nack false)),
      )

  -- The type of the delivery has no handler.
  abbrev pub IsUnknown : Env × Delivery → Type 0
  IsUnknown x = get_handler (get_type v.unmarshal_type x.1) c.router ≡ none

  process_unknown :
      (e : Env) (d : Delivery) (w : World S)
      → get_handler (get_type v.unmarshal_type d) c.router ≡ none
      → (process v c e d w).breaker ≡ w.breaker
  unfolding process
  process_unknown e d w h = rw (process, h)

  type-with_trace_id :
      (uuid : String) (d : Delivery)
      → get_type v.unmarshal_type (with_trace_id uuid d) ≡ get_type v.unmarshal_type d
  unfolding get_type with_trace_id
  type-with_trace_id uuid d = ground arith

  -- The breaker after a delivery that it lets through and that has no handler.
  unknown_once :
      (cb cb' : CircuitBreaker) (e : Env) (d : Delivery) (w : World S)
      → w.breaker ≡ some cb
      → IsUnknown (e, d)
      → allow_request e.allow_now e.allow_later cb ≡ (true, cb')
      → (handle_delivery v c e d w).breaker ≡ some cb'
  unknown_once cb cb' e d w b u a =
      let d' = with_trace_id e.uuid d in
      let r = received v c d' w in
      let r' : World S = record r { breaker = some cb' } in
      ap (λ (x : World S). x.breaker)
        (passed e d w r' (admitted e r cb true cb' (received-breaker d' w ∙ b) a))
      ∙ process_unknown e d' r' (ap (λ t. get_handler t c.router) (type-with_trace_id e.uuid d) ∙ u)

  -- Each further delivery without a handler uses up a trial request, and none gives it back.
  unknown-All :
      (cb : CircuitBreaker) (a m : ℕ) (us : List (Env × Delivery)) (w : World S)
      → w.breaker ≡ some cb
      → Trial a m cb
      → All IsUnknown us
      → a + length us ≡ m
      → m ≤ max_int
      → (cb' : CircuitBreaker) × ((work v c us w).breaker ≡ some cb') × Trial m m cb'
  unfolding work
  unknown-All cb a m [] w b t u n k = (cb, b, subst (λ x. Trial x m cb) (omega arith) t)
  unknown-All cb a m ((e, d) ∷ us) w b t u n k =
      let (ok, t') = allow_next cb a m e.allow_now e.allow_later t (omega arith) k in
      let cb' = (allow_request e.allow_now e.allow_later cb).1 in
      unknown-All cb' (a + 1) m us (handle_delivery v c e d w)
        (unknown_once cb cb' e d w b u.0 (ap (λ x. (x, cb')) ok)) t' u.1 (omega arith) k

  -- An open breaker whose timeout is over, with `HalfOpenMaxRequests` = m, stalls if the next
  -- m + 1 deliveries have types without a handler: from then on every delivery is rejected, no
  -- handler is called and the breaker does not change.
  pub unknown_types_stall :
      (cb : CircuitBreaker) (m : ℕ) (e : Env) (d : Delivery) (us ds : List (Env × Delivery))
      (w : World S)
      → w.breaker ≡ some cb
      → cb.state ≡ open_
      → cb.config.half_open_max_requests ≡ pos m
      → m ≤ max_int
      → leb_int cb.config.reset_timeout (sub_time e.allow_now cb.last_state_change_time) ≡ true
      → All IsUnknown ((e, d) ∷ us)
      → length us ≡ m
      → let w' = work v c ((e, d) ∷ us) w in
        ((work v c ds w').breaker ≡ w'.breaker)
        × ((work v c ds w').publisher ≡ w'.publisher)
        × ((work v c ds w').settled ≡ w'.settled ++ replicate (length ds) (nack false))
  unfolding work
  unknown_types_stall cb m e d us ds w b s l k time u n =
      let (ok, t) = allow_probe cb m e.allow_now e.allow_later s l time in
      let cb' = (allow_request e.allow_now e.allow_later cb).1 in
      let (cb'', b'', t'') =
        unknown-All cb' 0 m us (handle_delivery v c e d w)
          (unknown_once cb cb' e d w b u.0 (ap (λ x. (x, cb')) ok)) t u.1 (omega arith) k in
      let (breaker', publisher', settled') =
        stalled cb'' m ds (work v c us (handle_delivery v c e d w)) b'' t'' in
      (breaker' ∙ sym b'', publisher', settled')
