-- ===== src/Broker/Consumer/Workers/Examples.antt =====
-- Two workers at concrete inputs.
use rabbitmq_kit_go.Prelude.{
  ℕ, zero, suc, ◌+◌, ◌≡◌, refl, inr, All, replicate, arith, none, some, List, [], ◌∷◌, ◌++◌, length,
  if◌then◌else◌, ◌==◌,
}
use rabbitmq_kit_go.Prelude.Int.{pos}
use rabbitmq_kit_go.Errors.{nil, foreign}
use rabbitmq_kit_go.Amqp.{Delivery, Publishing}
use rabbitmq_kit_go.CircuitBreaker.{CircuitBreaker, default_config, new}
use rabbitmq_kit_go.CircuitBreaker.Invariant.{Inv, new-Inv}
use rabbitmq_kit_go.Broker.Retry.{Publish}
use rabbitmq_kit_go.Broker.Consumer.{
  Settlement, Services, Consumer, Env, World, admit, received, with_trace_id,
}
use rabbitmq_kit_go.Broker.Consumer.Settle.{Fate}
use rabbitmq_kit_go.Broker.Consumer.Workers.Ending
use rabbitmq_kit_go.Broker.Consumer.Workers.Ending.{Leaving, run_rounds}
use rabbitmq_kit_go.Broker.Consumer.Workers.Manned.{Covers}
use rabbitmq_kit_go.Broker.Consumer.Workers.Rounds.{workers_leave}
use rabbitmq_kit_go.Broker.Consumer.Workers.{failing, idle, turn, Workers, run, finish}
use rabbitmq_kit_go.Broker.Consumer.Workers.Interleave.{in_progress}
use rabbitmq_kit_go.Broker.Consumer.Workers.Runs.{BreakerInv, run_lem}
use rabbitmq_kit_go.Broker.Consumer.Workers.Alone.{alone_settles}

abbrev collect : Publish (List Publishing)
collect exchange routing_key p s = (nil, p ∷ s)

-- Handlers are numbers: 0 succeeds, any other fails. The first byte of a body tells the type.
abbrev services : Services (List Publishing) ℕ
services = record {
  publish = collect;
  execute = λ h d s. (if h == 0 then nil else foreign "timed out" nil, s);
  settles = λ h d s. [];
  writes = λ h d s. d.headers;
  unmarshal_type =
      λ b. elim b [ [] ↦ none | x ∷ r ↦ (if x == 1 then some "order" else some "payment") ];
  unmarshal_error = λ b. nil;
}

abbrev consumer : Consumer ℕ
consumer = record {
  router = record { handlers = ("order", 0) ∷ ("payment", 1) ∷ [] };
  retry_handler = record { max_retries = pos 3 };
}

abbrev order : Delivery
order = record {
  headers = none;
  content_type = "application/json";
  delivery_mode = 2;
  priority = 0;
  correlation_id = "c";
  reply_to = "";
  expiration = "";
  message_id = "m";
  type = "";
  user_id = "";
  app_id = "";
  exchange = "orders";
  routing_key = "order.created";
  body = 1 ∷ [];
}

abbrev payment : Delivery
payment = record order { body = 2 ∷ [] }

abbrev env : Env
env = record {
  uuid = "u";
  allow_now = 5;
  allow_later = 5;
  failure_now = 6;
  failure_later = 6;
  success_now = 6;
  retry_now = 7;
  ack_error = nil;
}

abbrev breaker : CircuitBreaker
breaker = new default_config 1

abbrev world : World (List Publishing)
world = record {
  breaker = some breaker;
  publisher = [];
  settled = [];
  by_handlers = [];
  lines = [];
}

-- Two idle workers, and two deliveries that wait.
abbrev two : Workers (List Publishing)
two = record { phases = idle ∷ idle ∷ []; queue = order ∷ payment ∷ []; world = world }

-- Both take a delivery, and their turns alternate.
abbrev turns : List (ℕ × Env)
turns =
    (0, env)
    ∷ (1, env)
    ∷ (1, env)
    ∷ (0, env)
    ∷ (0, env)
    ∷ (1, env)
    ∷ (1, env)
    ∷ (0, env)
    ∷ (1, env)
    ∷ []

breaker-Inv : Inv breaker
breaker-Inv = new-Inv default_config 1 (omega arith) (omega arith) (omega arith)

run_lem_example :
    let s' = run services consumer turns two in
    (length s'.world.settled + in_progress s'.phases + length s'.queue ≡ 2)
    × BreakerInv s'.world.breaker
run_lem_example = run_lem services consumer turns two breaker-Inv

alone_settles_example :
    let ((phase, queue'), w') = turn services consumer env idle (payment ∷ order ∷ []) world in
    let d' = with_trace_id "u" payment in
    let (ok, past) = admit env (received services consumer d' world) in
    (queue' ≡ order ∷ [])
    × ((done : World (List Publishing)) × (finish services consumer 6 env phase w' ≡ some done)
        × ((x : Settlement) × (own : List Settlement) × Fate services consumer env d' ok past x own
            × (done.settled ≡ [] ++ x ∷ [])
            × (done.by_handlers ≡ [] ++ own)))
alone_settles_example = alone_settles services consumer env payment (order ∷ []) world

-- The channel closes while one worker has a failed delivery and another delivery waits.
abbrev closing : Leaving (List Publishing)
closing = record {
  workers = some idle ∷ some (failing payment) ∷ [];
  queue = order ∷ [];
  world = world;
}

abbrev round : List (ℕ × Env)
round = (1, env) ∷ (0, env) ∷ []

abbrev rounds : List (List (ℕ × Env))
rounds = replicate 11 round

round-Covers : Covers 2 round
round-Covers zero h = refl
round-Covers (suc zero) h = refl
round-Covers (suc (suc i)) h = absurd (omega (arith, h))

workers_leave_example :
    let s' = run_rounds services consumer rounds closing in
    All (λ o. o ≡ none) s'.workers
    × (s'.queue ≡ [])
    × (length s'.world.settled ≡ 2)
    × ((more : List (ℕ × Env)) → Ending.run services consumer more s' ≡ s')
workers_leave_example =
    workers_leave services consumer rounds closing (inr (0, idle, refl)) (all_rounds 11)
      (omega arith)
  where
    all_rounds : (n : ℕ) → All (Covers 2) (replicate n round)
    all_rounds zero = tt
    all_rounds (suc n) = (round-Covers, all_rounds n)
