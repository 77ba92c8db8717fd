-- ===== src/Direct/Examples.antt =====
-- A topology that is declared directly, on a broker that makes up a name.
use rabbitmq_kit_go.Prelude.{◌≡◌, true, false, String, none, List, [], ◌∷◌, if◌then◌else◌, str_eq}
use rabbitmq_kit_go.Errors.{nil, is_nil, foreign}
use rabbitmq_kit_go.Broker.Client.Plan.{Sends}
use rabbitmq_kit_go.Direct.{Channel, Topology, declare_queue, declare_topology}
use rabbitmq_kit_go.Direct.Plan.{answer, plan, declare_topology-Sends}

-- It refuses the key "bad", and collects the keys that are bound.
abbrev broker : Channel (List String) String
broker = record {
  exchange_declare = λ name type durable auto_delete internal args b. (nil, b);
  queue_declare = λ name durable auto_delete exclusive args b.
      (((if str_eq name "" then "amq.gen-1" else name), nil), b);
  queue_bind = λ name key exchange b.
      (if str_eq key "bad" then (foreign "not allowed" nil, b) else (nil, name ∷ key ∷ b));
  name = λ q. q;
  no_queue = "";
}

abbrev spy : Topology
spy = record {
  exchange = record {
    name = "orders.events";
    type = "topic";
    durable = true;
    auto_delete = false;
    internal = false;
    args = none;
  };
  queue = record {
    name = "";
    exchange = "ignored";
    routing_keys = "order.created" ∷ "bad" ∷ "order.completed" ∷ [];
    durable = false;
    auto_delete = true;
    exclusive = true;
    args = none;
  };
}

declare_topology-Sends_example :
    let ((q, err), b') = declare_topology broker [] spy [] in
    Sends (answer broker) (plan broker [] spy "amq.gen-1") [] (err, b')
    × (q ≡ (if is_nil err then "amq.gen-1" else ""))
unfolding declare_queue
declare_topology-Sends_example = declare_topology-Sends broker [] spy []
