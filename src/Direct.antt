-- ===== src/Direct.antt =====
-- direct/topology.go and direct/connection.go: an exchange with a queue, declared on a channel that
-- the caller opened. The channel's methods are parameters: `B` is the broker's state, `Q` is
-- `amqp.Queue`.
pub mod Plan
mod Examples
use rabbitmq_kit_go.Prelude.{Bool, not, String, Option, none, some, List, [], ◌∷◌, if◌then◌else◌}
use rabbitmq_kit_go.Prelude.GoMap.{GoMap}
use rabbitmq_kit_go.Errors.{Error, nil, is_nil}
use rabbitmq_kit_go.Amqp.{Value}
use rabbitmq_kit_go.Config.Topology.{Heap, read, ExchangeConfig, QueueConfig}

-- The methods that are called, with `no-wait` false and no arguments for a binding; the name in an
-- `amqp.Queue`, and `amqp.Queue{}`.
pub record Channel (B Q : Type 0) : Type 0 where
  pub exchange_declare :
      (name type : String) → (durable auto_delete internal : Bool) → GoMap Value → B → Error × B
  pub queue_declare :
      (name : String) → (durable auto_delete exclusive : Bool) → GoMap Value → B → (Q × Error) × B
  pub queue_bind : (name key exchange : String) → B → Error × B
  pub name : Q → String
  pub no_queue : Q

pub record Topology : Type 0 where
  pub exchange : ExchangeConfig
  pub queue : QueueConfig

module _ {B Q : Type 0} (ch : Channel B Q) where
  unfoldable pub declare_exchange : Heap → ExchangeConfig → B → Error × B
  declare_exchange h ex b =
      ch.exchange_declare ex.name ex.type ex.durable ex.auto_delete ex.internal (read h ex.args) b

  unfoldable pub declare_queue : Heap → QueueConfig → B → (Q × Error) × B
  declare_queue h q b =
      ch.queue_declare q.name q.durable q.auto_delete q.exclusive (read h q.args) b

  unfoldable pub bind_queue : (queue_name exchange_name : String) → List String → B → Error × B
  bind_queue queue_name exchange_name [] b = (nil, b)
  bind_queue queue_name exchange_name (key ∷ keys) b =
      let (err, b1) = ch.queue_bind queue_name key exchange_name b in
      let rest = bind_queue queue_name exchange_name keys b1 in
      if not (is_nil err) then (err, b1) else rest

  unfoldable pub declare_topology : Heap → Topology → B → (Q × Error) × B
  unfolding declare_exchange declare_queue bind_queue
  declare_topology h t b =
      let (err, b1) = declare_exchange h t.exchange b in
      let ((q, queue_err), b2) = declare_queue h t.queue b1 in
      let (bind_err, b3) = bind_queue (ch.name q) t.exchange.name t.queue.routing_keys b2 in
      if not (is_nil err)
      then ((ch.no_queue, err), b1)
      else (if not (is_nil queue_err)
          then ((ch.no_queue, queue_err), b2)
          else (if not (is_nil bind_err) then ((ch.no_queue, bind_err), b3) else ((q, nil), b3)))

-- `Disconnect`, with what closing the connection returns.
unfoldable pub disconnect : {C B : Type 0} → (close : C → B → Error × B) → Option C → B → Error × B
disconnect close none b = (nil, b)
disconnect close (some conn) b = close conn b
