-- ===== src/Broker/Consumer/Workers/Budget.antt =====
-- The turns that the workers of a closed channel have left.
use rabbitmq_kit_go.Prelude.{
  ℕ, zero, suc, ◌+◌, ◌*◌, ◌≤◌, ◌≡◌, refl, ◌∙◌, Option, none, some, List, [], ◌∷◌, length, get_elem?,
  set_at, arith, Option-cases, Bool-cases, inl, inr,
}
use rabbitmq_kit_go.Amqp.{Delivery}
use rabbitmq_kit_go.Router.{get_handler}
use rabbitmq_kit_go.Router.Message.{get_type}
use rabbitmq_kit_go.Broker.Consumer.{Services, Consumer, Env, World, admit}
use rabbitmq_kit_go.Broker.Consumer.Workers.{
  Phase, idle, taken, admitted, failing, retrying, retried, acked, call, move, turn,
}
use rabbitmq_kit_go.Broker.Consumer.Workers.Interleave.{unsettled, turn-load}
use rabbitmq_kit_go.Broker.Consumer.Workers.Ending.{Leaving, last_turn, step, run, counts, turns_of}

-- The turns that a worker has at most before it leaves, when no delivery waits.
abbrev pub turns_left : Option Phase → ℕ
turns_left none = 0
turns_left (some idle) = 1
turns_left (some acked) = 2
turns_left (some (retried err d)) = 2
turns_left (some (retrying d)) = 3
turns_left (some (failing d)) = 4
turns_left (some (admitted d)) = 5
turns_left (some (taken d)) = 6

abbrev pub all_left : List (Option Phase) → ℕ
all_left [] = 0
all_left (o ∷ os) = turns_left o + all_left os

-- The turns of all workers at most.
abbrev pub budget : {S : Type 0} → Leaving S → ℕ
budget s = 6 * length s.queue + all_left s.workers

abbrev unsettled_by : Option Phase → ℕ
unsettled_by none = 0
unsettled_by (some p) = unsettled p

abbrev pub in_progress : List (Option Phase) → ℕ
in_progress [] = 0
in_progress (o ∷ os) = unsettled_by o + in_progress os

sums-set_at :
    (i : ℕ) (o o' : Option Phase) (os : List (Option Phase))
    → get_elem? os i ≡ some o
    → (all_left (set_at i o' os) + turns_left o ≡ all_left os + turns_left o')
      × (in_progress (set_at i o' os) + unsettled_by o ≡ in_progress os + unsettled_by o')
sums-set_at i o o' [] h = absurd (ground arith)
sums-set_at zero o o' (x ∷ os) h =
    let same : x ≡ o = ground arith in rw same (omega arith, omega arith)
sums-set_at (suc i) o o' (x ∷ os) h =
    let (left, settled) = sums-set_at i o o' os h in (omega (arith, left), omega (arith, settled))

module _ {S H : Type 0} (v : Services S H) (c : Consumer H) where
  -- A turn of a worker that is in its loop brings it nearer to its end.
  call-left :
      (h : H) (e : Env) (d : Delivery) (w : World S) → turns_left (some (call v c h e d w).0) ≤ 4
  unfolding call
  call-left h e d w = ground arith

  last_turn-left :
      (e : Env) (p : Phase) (queue : List Delivery) (w : World S)
      → let ((o, queue'), w') = last_turn v c e p queue w in
        6 * length queue' + turns_left o + 1 ≤ 6 * length queue + turns_left (some p)
  unfolding last_turn turn move
  last_turn-left e idle [] w = omega arith
  last_turn-left e idle (d ∷ queue) w = omega arith
  last_turn-left e (taken d) queue w = elim (Bool-cases (admit e w).0) [
    | inl h ↦ rw h (omega arith)
    | inr h ↦ rw h (omega arith)
  ]
  last_turn-left e (admitted d) queue w =
      elim (Option-cases (get_handler (get_type v.unmarshal_type d) c.router)) [
        | inl h ↦ rw (h, move) (omega arith)
        | inr (handler, h) ↦ rw (h, move) (omega (arith, call-left handler e d w))
      ]
  last_turn-left e (failing d) queue w = omega arith
  last_turn-left e (retrying d) queue w = omega arith
  last_turn-left e (retried err d) queue w = omega arith
  last_turn-left e acked queue w = omega arith

  last_turn-load :
      (e : Env) (p : Phase) (queue : List Delivery) (w : World S)
      → let ((o, queue'), w') = last_turn v c e p queue w in
        length w'.settled + unsettled_by o + length queue'
        ≡ length w.settled + unsettled p + length queue
  unfolding last_turn
  last_turn-load e idle [] w = refl
  last_turn-load e idle (d ∷ queue) w = turn-load v c e idle (d ∷ queue) w
  last_turn-load e (taken d) queue w = turn-load v c e (taken d) queue w
  last_turn-load e (admitted d) queue w = turn-load v c e (admitted d) queue w
  last_turn-load e (failing d) queue w = turn-load v c e (failing d) queue w
  last_turn-load e (retrying d) queue w = turn-load v c e (retrying d) queue w
  last_turn-load e (retried err d) queue w = turn-load v c e (retried err d) queue w
  last_turn-load e acked queue w = turn-load v c e acked queue w

  -- The deliveries that came and are not settled yet, and the settlements.
  abbrev pub load : Leaving S → ℕ
  load s = length s.world.settled + in_progress s.workers + length s.queue

  step-spends :
      (i : ℕ) (e : Env) (s : Leaving S)
      → let s' = step v c i e s in
        (budget s' + counts v c (get_elem? s.workers i) ≤ budget s) × (load s' ≡ load s)
  unfolding step
  step-spends i e s = elim (Option-cases (get_elem? s.workers i)) [
    | inl h ↦ rw (h, step) (omega arith, refl)
    | inr (none, h) ↦ rw (h, step) (omega arith, refl)
    | inr (some p, h) ↦
        let ((o, queue'), w') = last_turn v c e p s.queue s.world in
        let (left, settled) = sums-set_at i (some p) o s.workers h in
        rw (h, step)
          (
            omega (arith, left, last_turn-left e p s.queue s.world),
            omega (arith, settled, last_turn-load e p s.queue s.world),
          )
  ]

  pub run-spends :
      (turns : List (ℕ × Env)) (s : Leaving S)
      → let s' = run v c turns s in
        (budget s' + turns_of v c turns s ≤ budget s) × (load s' ≡ load s)
  unfolding run turns_of
  run-spends [] s = (omega arith, refl)
  run-spends ((i, e) ∷ turns) s =
      let (spent, kept) = step-spends i e s in
      let (spent', kept') = run-spends turns (step v c i e s) in
      (omega (arith, spent, spent'), kept' ∙ kept)
