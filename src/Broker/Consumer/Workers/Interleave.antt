-- ===== src/Broker/Consumer/Workers/Interleave.antt =====
-- What holds of the workers however their turns interleave.
use rabbitmq_kit_go.Prelude.{
  ℕ, zero, suc, ◌+◌, ◌≡◌, refl, ap, ◌∙◌, false, some, List, [], ◌∷◌, length, length-append,
  get_elem?, set_at, arith, Option-cases, inl, inr,
}
use rabbitmq_kit_go.Amqp.{Delivery}
use rabbitmq_kit_go.Router.{get_handler}
use rabbitmq_kit_go.Router.Message.{get_type}
use rabbitmq_kit_go.Broker.Consumer.{with_trace_id, ack, nack, Services, Consumer, Env, World}
use rabbitmq_kit_go.Broker.Consumer.Told.{
  verdict, admit-settled, received-settled, after_retry-settled,
}
use rabbitmq_kit_go.Broker.Consumer.Workers.{
  Phase, idle, taken, admitted, failing, retrying, retried, acked, call, move, turn, Workers, step,
  run,
}

-- A worker that has yet to settle its delivery.
abbrev pub unsettled : Phase → ℕ
unsettled idle = 0
unsettled acked = 0
unsettled _ = 1

abbrev pub in_progress : List Phase → ℕ
in_progress [] = 0
in_progress (p ∷ ps) = unsettled p + in_progress ps

in_progress-set_at :
    (i : ℕ) (p p' : Phase) (ps : List Phase)
    → get_elem? ps i ≡ some p
    → in_progress (set_at i p' ps) + unsettled p ≡ in_progress ps + unsettled p'
in_progress-set_at i p p' [] h = absurd (ground arith)
in_progress-set_at zero p p' (x ∷ ps) h = let same : x ≡ p = ground arith in rw same (omega arith)
in_progress-set_at (suc i) p p' (x ∷ ps) h = omega (arith, in_progress-set_at i p p' ps h)

module _ {S H : Type 0} (v : Services S H) (c : Consumer H) where
  call-load :
      (h : H) (e : Env) (d : Delivery) (w : World S)
      → let (p', w') = call v c h e d w in length w'.settled + unsettled p' ≡ length w.settled + 1
  unfolding call
  call-load h e d w = ground (arith, length-append w.settled (ack ∷ []))

  move-load :
      (e : Env) (p : Phase) (w : World S)
      → let (p', w') = move v c e p w in
        length w'.settled + unsettled p' ≡ length w.settled + unsettled p
  unfolding move
  move-load e idle w = refl
  move-load e (taken d) w =
      ground (arith, admit-settled e w, length-append w.settled (nack false ∷ []))
  move-load e (admitted d) w =
      elim (Option-cases (get_handler (get_type v.unmarshal_type d) c.router)) [
        | inl h ↦ rw (h, move) (omega (arith, length-append w.settled (ack ∷ [])))
        | inr (handler, h) ↦ rw (h, move) (call-load handler e d w)
      ]
  move-load e (failing d) w = refl
  move-load e (retrying d) w = refl
  move-load e (retried err d) w =
      omega
        (arith, ap length (after_retry-settled err d w), length-append w.settled (verdict err ∷ []))
  move-load e acked w = refl

  -- The deliveries that came and are not settled yet, and the settlements.
  abbrev pub load : Workers S → ℕ
  load s = length s.world.settled + in_progress s.phases + length s.queue

  pub turn-load :
      (e : Env) (p : Phase) (queue : List Delivery) (w : World S)
      → let ((p', queue'), w') = turn v c e p queue w in
        length w'.settled + unsettled p' + length queue'
        ≡ length w.settled + unsettled p + length queue
  unfolding turn
  turn-load e idle [] w = refl
  turn-load e idle (d ∷ queue) w =
      omega (arith, ap length (received-settled v c (with_trace_id e.uuid d) w))
  turn-load e (taken d) queue w = omega (arith, move-load e (taken d) w)
  turn-load e (admitted d) queue w = omega (arith, move-load e (admitted d) w)
  turn-load e (failing d) queue w = omega (arith, move-load e (failing d) w)
  turn-load e (retrying d) queue w = omega (arith, move-load e (retrying d) w)
  turn-load e (retried err d) queue w = omega (arith, move-load e (retried err d) w)
  turn-load e acked queue w = omega (arith, move-load e acked w)

  step-load : (i : ℕ) (e : Env) (s : Workers S) → load (step v c i e s) ≡ load s
  unfolding step
  step-load i e s = elim (Option-cases (get_elem? s.phases i)) [
    | inl h ↦ rw (h, step) refl
    | inr (p, h) ↦
        let ((p', queue'), w') = turn v c e p s.queue s.world in
        rw (h, step)
          (omega (arith, turn-load e p s.queue s.world, in_progress-set_at i p p' s.phases h))
  ]

  pub run-load : (turns : List (ℕ × Env)) (s : Workers S) → load (run v c turns s) ≡ load s
  unfolding run
  run-load [] s = refl
  run-load ((i, e) ∷ turns) s = run-load turns (step v c i e s) ∙ step-load i e s
