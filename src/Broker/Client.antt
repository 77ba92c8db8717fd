-- ===== src/Broker/Client.antt =====
-- internal/broker/client.go: connecting, and declaring the topology. `B` is the broker's state, and
-- `request` what it answers to a declaration. Argument maps live in a heap, as in Config/Topology.
pub mod Plan
pub mod DeadLetters
pub mod Connect
pub mod Reconnect
pub mod Watchers
pub mod Delay
pub mod Blocked
mod Examples
use rabbitmq_kit_go.Prelude.{
  ℕ, ◌+◌, Bool, true, false, not, ◌&&◌, ◌||◌, String, Option, none, some, List, [], ◌∷◌,
  if◌then◌else◌, str_eq, ◌==◌,
}
use rabbitmq_kit_go.Prelude.Int.{ℤ}
use rabbitmq_kit_go.Prelude.GoMap.{GoMap}
use rabbitmq_kit_go.Errors.{
  Error, nil, is_nil, sentinel, client_closed, no_channel, new_topology_error, new_connection_error,
}
use rabbitmq_kit_go.Amqp.{Value}
use rabbitmq_kit_go.Config.{Config}
use rabbitmq_kit_go.Config.Topology.{
  Heap, read, ExchangeConfig, QueueConfig, DlqConfig, get_dlq_name, get_dlx_routing_key, with_dlx,
}

-- The declarations that the client makes, in the order of the AMQP method's arguments; `no-wait` is
-- always false. A map without entries stands for a nil one.
pub data Request : Type 0 where
  exchange_declare :
      (name type : String) → (durable auto_delete internal : Bool) → (args : GoMap Value) → Request
  queue_declare :
      (name : String) → (durable auto_delete exclusive : Bool) → (args : GoMap Value) → Request
  queue_bind : (name key exchange : String) → Request

abbrev pub Answer : Type 0 → Type 0
Answer B = Request → B → Error × B

-- configQueueWithDLX
unfoldable pub config_queue_with_dlx : QueueConfig → DlqConfig → Heap → QueueConfig × Heap
config_queue_with_dlx q dlq h = with_dlx dlq.exchange_name (get_dlx_routing_key dlq q.name) q h

abbrev pub declare_exchange : Heap → ExchangeConfig → Request
declare_exchange h ex =
    exchange_declare ex.name ex.type ex.durable ex.auto_delete ex.internal (read h ex.args)

abbrev pub declare_queue : Heap → QueueConfig → Request
declare_queue h q = queue_declare q.name q.durable q.auto_delete q.exclusive (read h q.args)

abbrev pub declare_dlq : DlqConfig → QueueConfig → Request
declare_dlq dlq q = queue_declare (get_dlq_name dlq q.name) dlq.durable dlq.auto_delete false []

abbrev pub bind_dlq : DlqConfig → QueueConfig → Request
bind_dlq dlq q =
    queue_bind (get_dlq_name dlq q.name) (get_dlx_routing_key dlq q.name) dlq.exchange_name

abbrev pub declare_dlx : DlqConfig → Request
declare_dlx dlq =
    exchange_declare dlq.exchange_name dlq.exchange_type dlq.durable dlq.auto_delete false []

module _ {B : Type 0} (request : Answer B) where
  -- The loop of `setupDLQ`.
  unfoldable pub setup_dlqs : DlqConfig → List QueueConfig → B → Error × B
  setup_dlqs dlq [] b = (nil, b)
  setup_dlqs dlq (q ∷ qs) b =
      let (declared, b1) = request (declare_dlq dlq q) b in
      let (bound, b2) = request (bind_dlq dlq q) b1 in
      let rest = setup_dlqs dlq qs b2 in
      if not (is_nil declared)
      then (new_topology_error "declare_dlq" (get_dlq_name dlq q.name) declared, b1)
      else (if not (is_nil bound)
          then (new_topology_error "bind_dlq" (get_dlq_name dlq q.name) bound, b2)
          else rest)

  unfoldable pub setup_dlq : DlqConfig → List QueueConfig → B → Error × B
  setup_dlq dlq qs b =
      let (err, b1) = request (declare_dlx dlq) b in
      if not (is_nil err)
      then (new_topology_error "declare_dlx" dlq.exchange_name err, b1)
      else setup_dlqs dlq qs b1

  unfoldable pub declare_exchanges : Heap → List ExchangeConfig → B → Error × B
  declare_exchanges h [] b = (nil, b)
  declare_exchanges h (ex ∷ exs) b =
      let (err, b1) = request (declare_exchange h ex) b in
      let rest = declare_exchanges h exs b1 in
      if not (is_nil err) then (new_topology_error "declare_exchange" ex.name err, b1) else rest

  -- The bindings of a queue.
  unfoldable pub bind_keys : (name exchange : String) → List String → B → Error × B
  bind_keys name exchange [] b = (nil, b)
  bind_keys name exchange (key ∷ keys) b =
      let (err, b1) = request (queue_bind name key exchange) b in
      let rest = bind_keys name exchange keys b1 in
      if not (is_nil err) then (new_topology_error "bind_queue" name err, b1) else rest

  -- One queue of the configuration, as it is to be declared.
  unfoldable pub setup_queue : Heap → QueueConfig → B → Error × B
  unfolding bind_keys
  setup_queue h q b =
      let (err, b1) = request (declare_queue h q) b in
      if not (is_nil err)
      then (new_topology_error "declare_queue" q.name err, b1)
      else (if str_eq q.exchange ""
          then (nil, b1)
          else bind_keys q.name q.exchange q.routing_keys b1)

  unfoldable pub declare_queues :
      (dlq_enabled : Bool) → DlqConfig → List QueueConfig → Heap → B → (Error × Heap) × B
  unfolding setup_queue
  declare_queues dlq_enabled dlq [] h b = ((nil, h), b)
  declare_queues dlq_enabled dlq (q ∷ qs) h b =
      let (q', h') = (if dlq_enabled then config_queue_with_dlx q dlq h else (q, h)) in
      let (err, b1) = setup_queue h' q' b in
      let rest = declare_queues dlq_enabled dlq qs h' b1 in
      if not (is_nil err) then ((err, h'), b1) else rest

  unfoldable pub setup_topology : Config → Heap → B → (Error × Heap) × B
  unfolding setup_dlq
  setup_topology c h b =
      let (dlq_err, b1) = (if c.dlq_enabled then setup_dlq c.dlq_config c.queues b else (nil, b)) in
      if not (is_nil dlq_err)
      then ((dlq_err, h), b1)
      else (let (err, b2) = declare_exchanges h c.exchanges b1 in
          if not (is_nil err)
          then ((err, h), b2)
          else declare_queues c.dlq_enabled c.dlq_config c.queues h b2)

-- Connections are numbered, and each has one channel, of the same number. The order of the numbers
-- says nothing; `next` is one that is not in use.
pub record Client : Type 0 where
  pub config : Config
  pub conn : Option ℕ
  pub channel : Option ℕ
  pub closed : Bool

-- What is open, and the rest of the outside.
pub record Net (B : Type 0) : Type 0 where
  pub next : ℕ
  pub open_conns : List ℕ
  pub open_channels : List ℕ
  pub heap : Heap
  pub broker : B

-- What the calls of amqp091-go return while connecting.
pub record Dialing : Type 0 where
  pub dial : Error
  pub open_channel : Error
  pub qos : Error
  pub confirm : Error

-- x.Close()
unfoldable pub close_id : ℕ → List ℕ → List ℕ
close_id x [] = []
close_id x (y ∷ ys) = let rest = close_id x ys in if y == x then rest else y ∷ rest

abbrev pub close_conn : {B : Type 0} → ℕ → Net B → Net B
close_conn x n = record n { open_conns = close_id x n.open_conns }

abbrev pub close_both : {B : Type 0} → ℕ → Net B → Net B
close_both x n = record n {
  open_channels = close_id x n.open_channels;
  open_conns = close_id x n.open_conns;
}

module _ {B : Type 0} (request : Answer B) where
  -- What follows once connection and channel are open: every error closes both.
  unfoldable pub set_up : Dialing → ℕ → Client → Net B → (Error × Client) × Net B
  set_up d x c n =
      if not (is_nil d.qos)
      then ((new_connection_error "set qos" d.qos, c), close_both x n)
      else (if c.config.publisher_confirms && not (is_nil d.confirm)
          then ((new_connection_error "enable publisher confirms" d.confirm, c), close_both x n)
          else (let ((err, h), b) = setup_topology request c.config n.heap n.broker in
              let done = record n { heap = h; broker = b } in
              if not (is_nil err) then ((err, c), close_both x done) else ((nil, c), done)))

  -- The goroutines that `connect` starts to watch for closes and alarms are in the modules below.
  unfoldable pub connect : Dialing → Client → Net B → (Error × Client) × Net B
  unfolding set_up
  connect d c n =
      let x = n.next in
      let dialled = record n { next = x + 1; open_conns = x ∷ n.open_conns } in
      let opened = record dialled { open_channels = x ∷ n.open_channels } in
      if c.closed
      then ((sentinel client_closed, c), n)
      else (if not (is_nil d.dial)
          then ((new_connection_error "dial" d.dial, c), n)
          else (if not (is_nil d.open_channel)
              then ((new_connection_error "open channel" d.open_channel, c), close_conn x dialled)
              else set_up d x (record c { conn = some x; channel = some x }) opened))

abbrev close_some : Option ℕ → List ℕ → List ℕ
close_some none xs = xs
close_some (some x) xs = close_id x xs

abbrev pub contains : ℕ → List ℕ → Bool
contains x [] = false
contains x (y ∷ ys) = y == x || contains x ys

unfoldable pub is_connected : {B : Type 0} → Client → Net B → Bool
is_connected c n = elim c.conn [ none ↦ false | some x ↦ contains x n.open_conns ]

-- Errors of closing are ignored, and the result is nil in every case.
unfoldable pub close : {B : Type 0} → Client → Net B → Client × Net B
close c n = if c.closed then (c, n) else (
  record c { closed = true },
  record n {
    open_channels = close_some c.channel n.open_channels;
    open_conns = close_some c.conn n.open_conns;
  },
)

unfoldable pub get_channel : Client → Error × Option ℕ
get_channel c =
    if c.closed
    then (sentinel client_closed, none)
    else elim c.channel [ none ↦ (sentinel no_channel, none) | some x ↦ (nil, some x) ]

-- `NewContext`: `with_timeout` and `background` are of the package `context`.
unfoldable pub new_context :
    {C : Type 0} → (with_timeout : C → ℤ → C) → (background : C) → Client → C
new_context with_timeout background c = with_timeout background c.config.timeout
