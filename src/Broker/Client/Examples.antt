-- ===== src/Broker/Client/Examples.antt =====
-- Connecting at concrete inputs.
use rabbitmq_kit_go.Prelude.{
  ℕ, suc, ◌≡◌, ◌≢◌, ◌⊎◌, ◌||◌, ◌&&◌, ◌≤◌, ◌*◌, ◌+◌, Bool, All, get_elem?, leb, arith, refl, true,
  false, none, some, List, [], ◌∷◌, if◌then◌else◌, length, ltb,
}
use rabbitmq_kit_go.Errors.{nil, foreign, is_nil}
use rabbitmq_kit_go.Config.{Config, default_config}
use rabbitmq_kit_go.Config.Topology.{QueueConfig, get_dlq_name, get_dlx_routing_key}
use rabbitmq_kit_go.Broker.Client.{
  Request, exchange_declare, queue_declare, queue_bind, Answer, Client, Net, Dialing, connect,
  setup_topology,
}
use rabbitmq_kit_go.Broker.Client.Plan.{topology_plan, Sends, setup_topology-Sends}
use mathlib.Core.List.Memᴰ.{Memᴰ, head}
use rabbitmq_kit_go.Broker.Client.DeadLetters.{Declared, accepts, setup_topology-Declared}
use rabbitmq_kit_go.Broker.Client.Connect.{Opens, connect_lem}
use rabbitmq_kit_go.Broker.Client.Reconnect.{
  Loop, Reach, broken, broken_recovers, closes, drops, fresh, here, listening, listens, live, lost,
  next, starting,
}
use rabbitmq_kit_go.Broker.Client.Reconnect.Dropped.{calls, dropped_stays_lost}
use rabbitmq_kit_go.Broker.Client.Watchers.{
  Watched, Moves, Moves-trans, start, working, old_watchers, replaced_for_ever,
}
use rabbitmq_kit_go.Broker.Client.Watchers
use rabbitmq_kit_go.Broker.Client.Delay.{connect_until, handle_reconnect, delay_lem}

-- A broker that takes two declarations and refuses the next.
abbrev takes_two : Answer (List Request)
takes_two r b = (if ltb (length b) 2 then nil else foreign "precondition failed" nil, r ∷ b)

abbrev orders : QueueConfig
orders = record {
  name = "orders.queue";
  exchange = "orders";
  routing_keys = "order.created" ∷ [];
  durable = true;
  auto_delete = false;
  exclusive = false;
  args = none;
}

abbrev config : Config
config = record default_config { dlq_enabled = true; queues = orders ∷ [] }

setup_topology-Sends_example :
    Sends takes_two
      (topology_plan config [])
      []
      ((setup_topology takes_two config [] []).0.0, (setup_topology takes_two config [] []).1)
setup_topology-Sends_example = setup_topology-Sends takes_two config [] []

setup_topology-Declared_example :
    let dlq = config.dlq_config in
    let ((err, h'), sent) = setup_topology accepts config [] [] in
    (is_nil err ≡ true)
    × Declared dlq orders sent
    × Memᴰ
        (exchange_declare dlq.exchange_name dlq.exchange_type dlq.durable dlq.auto_delete false [])
        sent
    × Memᴰ
        (queue_declare (get_dlq_name dlq "orders.queue") dlq.durable dlq.auto_delete false [])
        sent
    × Memᴰ
        (queue_bind
          (get_dlq_name dlq "orders.queue")
          (get_dlx_routing_key dlq "orders.queue")
          dlq.exchange_name)
        sent
setup_topology-Declared_example = setup_topology-Declared config [] orders refl (head refl) refl

-- A client that is connected already, after a channel error.
abbrev connected : Client
connected = record { config = config; conn = some 0; channel = some 0; closed = false }

abbrev net : Net (List Request)
net = record { next = 1; open_conns = 0 ∷ []; open_channels = []; heap = []; broker = [] }

abbrev dialing : Dialing
dialing = record { dial = nil; open_channel = nil; qos = nil; confirm = nil }

connect_lem_example :
    let ((err, c'), n') = connect takes_two dialing connected net in
    Opens err net n'
    × (c' ≡ (
        if is_nil err || (true && (true && true))
        then record connected { conn = some 1; channel = some 1 }
        else connected))
connect_lem_example = connect_lem takes_two dialing connected net (refl, tt) tt

abbrev stuck : Loop
stuck = record { handler = listening; link = lost; closed = false }

broken_recovers_example :
    Reach (record stuck { link = broken }) (record stuck { handler = starting; link = live })
broken_recovers_example = broken_recovers (record stuck { link = broken }) refl refl refl

-- After a call of `Reconnect`, and two closes of replaced connections.
abbrev churned : Watched
churned = working 1 3 1

old_watchers_example :
    (churned.old ≤ churned.calls + churned.retries)
    × (churned.calls + churned.retries ≡ 0 → churned.replaced ≡ 0)
    × (churned.loop.closed ≡ true → churned.loop.link ≢ live)
old_watchers_example = old_watchers churned (
    Moves-trans
      (Watchers.next Watchers.here
        (Watchers.loops (record fresh { handler = listening }) (listens refl)))
      (replaced_for_ever 2 0 0 0))

-- Closed from the time 100 on.
abbrev shut_late : ℕ → Bool
shut_late t = leb 100 t

-- A signal at 20, and calls of `Reconnect` at 21 and 24; the first connect fails.
delay_lem_example :
    (handle_reconnect 5 shut_late (20 ∷ 21 ∷ 24 ∷ 60 ∷ []) (false ∷ true ∷ true ∷ []) 10
      ≡ handle_reconnect 5 shut_late (20 ∷ 60 ∷ []) (false ∷ true ∷ true ∷ []) 10)
    × (get_elem?
          (handle_reconnect 5 shut_late (20 ∷ 21 ∷ 24 ∷ 60 ∷ []) (false ∷ true ∷ true ∷ []) 10)
          0
        ≡ some 25)
    × ((k x : ℕ)
        → get_elem? (connect_until 5 shut_late (false ∷ true ∷ true ∷ []) 25).0 k ≡ some x
        → x ≡ 20 + suc k * 5)
    × All
        (λ x. 25 ≤ x)
        (handle_reconnect 5 shut_late (20 ∷ 21 ∷ 24 ∷ 60 ∷ []) (false ∷ true ∷ true ∷ []) 10)
delay_lem_example =
    delay_lem 5 shut_late 20 (21 ∷ 24 ∷ []) (60 ∷ []) false (true ∷ true ∷ []) 10 (omega arith) refl
      (omega arith, (omega arith, tt))

connect_times :
    handle_reconnect 5 shut_late (20 ∷ 21 ∷ 24 ∷ 60 ∷ []) (false ∷ true ∷ true ∷ []) 10
    ≡ 25 ∷ 30 ∷ 65 ∷ []
unfolding handle_reconnect connect_until
connect_times = refl

-- The connection breaks as the handler goes back to its receive; the handler then waits, and the
-- client is closed in the end.
abbrev breaking : Loop
breaking = record fresh { link = broken }

dropped_stays_lost_example :
    ((record breaking { link = lost } ≡ record breaking { link = lost })
      ⊎ (record breaking { link = lost } ≡ record breaking { handler = listening })
      ⊎ (record breaking { link = lost } ≡ record breaking { link = lost; closed = true }))
    × (lost ≡ lost)
    × ((listening ≡ starting) ⊎ (listening ≡ listening))
unfolding calls
dropped_stays_lost_example =
    dropped_stays_lost breaking (record breaking { link = lost })
      (record { handler = listening; link = lost; closed = true }) refl refl refl
      (drops refl refl (λ h. ground (arith, h))) (next (next here (listens refl)) closes) refl
