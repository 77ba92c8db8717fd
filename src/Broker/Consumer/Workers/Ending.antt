-- ===== src/Broker/Consumer/Workers/Ending.antt =====
-- internal/broker/consumer.go: the workers of `Consume` once the channel of deliveries is closed, as it
-- is when its connection or AMQP channel is lost: a worker that finds it empty leaves its loop.
use rabbitmq_kit_go.Prelude.{ℕ, ◌+◌, Option, none, some, List, [], ◌∷◌, get_elem?, set_at}
use rabbitmq_kit_go.Amqp.{Delivery}
use rabbitmq_kit_go.Broker.Consumer.{Services, Consumer, Env, World}
use rabbitmq_kit_go.Broker.Consumer.Workers.{Phase, idle, turn}

-- A worker that has left its loop is `none`.
pub record Leaving (S : Type 0) : Type 0 where
  pub workers : List (Option Phase)
  pub queue : List Delivery
  pub world : World S

module _ {S H : Type 0} (v : Services S H) (c : Consumer H) where
  unfoldable pub last_turn :
      Env → Phase → List Delivery → World S → (Option Phase × List Delivery) × World S
  last_turn e idle [] w = ((none, []), w)
  last_turn e phase queue w =
      let ((phase', queue'), w') = turn v c e phase queue w in ((some phase', queue'), w')

  unfoldable pub step : ℕ → Env → Leaving S → Leaving S
  unfolding last_turn
  step i e s = elim (get_elem? s.workers i) [
    | none ↦ s
    | some worker ↦ elim worker [
      | none ↦ s
      | some phase ↦
          let ((worker', queue'), w') = last_turn e phase s.queue s.world in
          record { workers = set_at i worker' s.workers; queue = queue'; world = w' }
    ]
  ]

  unfoldable pub run : List (ℕ × Env) → Leaving S → Leaving S
  unfolding step
  run [] s = s
  run ((i, e) ∷ turns) s = run turns (step i e s)

  -- A turn counts if its worker is still in its loop.
  abbrev pub counts : Option (Option Phase) → ℕ
  counts none = 0
  counts (some none) = 0
  counts (some (some phase)) = 1

  -- The turns of a run that count.
  unfoldable pub turns_of : List (ℕ × Env) → Leaving S → ℕ
  unfolding step
  turns_of [] s = 0
  turns_of ((i, e) ∷ turns) s = counts (get_elem? s.workers i) + turns_of turns (step i e s)

  -- Round after round.
  unfoldable pub run_rounds : List (List (ℕ × Env)) → Leaving S → Leaving S
  unfolding run
  run_rounds [] s = s
  run_rounds (round ∷ rounds) s = run_rounds rounds (run round s)
