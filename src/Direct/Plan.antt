-- ===== src/Direct/Plan.antt =====
-- `DeclareTopology` as a list of declarations, against what the client's own setup declares.
use rabbitmq_kit_go.Prelude.{
  ◌≡◌, refl, ap, sym, ◌∙◌, Bool, false, String, List, [], ◌∷◌, map, if◌then◌else◌, str_eq,
  Bool-cases, inl, inr,
}
use rabbitmq_kit_go.Errors.{is_nil}
use rabbitmq_kit_go.Config.{Config}
use rabbitmq_kit_go.Config.Topology.{Heap}
use rabbitmq_kit_go.Broker.Client
use rabbitmq_kit_go.Broker.Client.{
  Request, exchange_declare, queue_declare, queue_bind, Answer, setup_topology,
}
use rabbitmq_kit_go.Broker.Client.Plan.{
  send_each, Sends, topology_plan-single, setup_topology-Sends,
}
use rabbitmq_kit_go.Direct.{
  Channel, Topology, declare_exchange, declare_queue, bind_queue, declare_topology,
}

module _ {B Q : Type 0} (ch : Channel B Q) where
  -- The channel as the client's setup sees it.
  abbrev pub answer : Answer B
  answer (exchange_declare name type durable auto_delete internal args) b =
      ch.exchange_declare name type durable auto_delete internal args b
  answer (queue_declare name durable auto_delete exclusive args) b =
      let ((q, err), b') = ch.queue_declare name durable auto_delete exclusive args b in (err, b')
  answer (queue_bind name key exchange) b = ch.queue_bind name key exchange b

  -- What the broker answers to the declaration of the queue.
  abbrev pub declared : Heap → Topology → B → Q
  declared h t b = (declare_queue ch h t.queue (declare_exchange ch h t.exchange b).1).0.0

  -- The declarations, with the queue's name as the broker answers it.
  abbrev pub plan : Heap → Topology → String → List Request
  plan h t name =
      Client.declare_exchange h t.exchange
      ∷ Client.declare_queue h t.queue
      ∷ map (λ key. queue_bind name key t.exchange.name) t.queue.routing_keys

  bind_queue-Sends :
      (name exchange : String) (keys : List String) (b : B)
      → Sends answer
          (map (λ key. queue_bind name key exchange) keys)
          b
          (bind_queue ch name exchange keys b)
  unfolding bind_queue
  bind_queue-Sends name exchange [] b = refl
  bind_queue-Sends name exchange (key ∷ keys) b =
      elim (Bool-cases (is_nil (ch.queue_bind name key exchange b).0)) [
        | inl h ↦ rw h (bind_queue-Sends name exchange keys (ch.queue_bind name key exchange b).1)
        | inr h ↦ rw h (ap (λ ok. (ok, (ch.queue_bind name key exchange b).1)) h)
      ]

  -- `DeclareTopology` declares the exchange, the queue and one binding for each routing key, under
  -- the name that the broker answered and on the topology's own exchange, up to the first that the
  -- broker refuses. It succeeds exactly if all are accepted, and then returns the broker's answer,
  -- else an empty one.
  pub declare_topology-Sends :
      (h : Heap) (t : Topology) (b : B)
      → let ((q, err), b') = declare_topology ch h t b in
        Sends answer (plan h t (ch.name (declared h t b))) b (err, b')
        × (q ≡ (if is_nil err then declared h t b else ch.no_queue))
  unfolding declare_topology declare_exchange declare_queue
  declare_topology-Sends h t b =
      let (err, b1) = declare_exchange ch h t.exchange b in
      let ((q, queue_err), b2) = declare_queue ch h t.queue b1 in
      let (bind_err, b3) = bind_queue ch (ch.name q) t.exchange.name t.queue.routing_keys b2 in
      elim (Bool-cases (is_nil err)) [
        | inr f ↦ rw f (ap (λ ok. (ok, b1)) f, rw f refl)
        | inl f ↦ elim (Bool-cases (is_nil queue_err)) [
          | inr g ↦ rw (f, g) (ap (λ ok. (ok, b2)) g, rw g refl)
          | inl g ↦
              let binds = bind_queue-Sends (ch.name q) t.exchange.name t.queue.routing_keys b2 in
              elim (Bool-cases (is_nil bind_err)) [
                | inr e ↦ rw (f, g, e) (binds, rw e refl)
                | inl e ↦ rw (f, g, e) (sym (ap (λ ok. (ok, b3)) e) ∙ binds, refl)
              ]
        ]
      ]

  -- Where the broker keeps the name that is asked for, `DeclareTopology` and the client's own setup of
  -- the same exchange and queue, without dead letters, leave the broker in the same state, and one
  -- succeeds exactly if the other does.
  pub declare_topology-setup_topology :
      (c : Config) (h : Heap) (t : Topology) (b : B)
      → c.dlq_enabled ≡ false
      → c.exchanges ≡ t.exchange ∷ []
      → c.queues ≡ record t.queue { exchange = t.exchange.name } ∷ []
      → str_eq t.exchange.name "" ≡ false
      → ch.name (declared h t b) ≡ t.queue.name
      → let ((q, err), b') = declare_topology ch h t b in
        let ((err', h'), b'') = setup_topology answer c h b in
        ◌≡◌ {A = Bool × B} (is_nil err, b') (is_nil err', b'')
  declare_topology-setup_topology c h t b no_dlq exchanges queues named kept =
      (declare_topology-Sends h t b).0
      ∙ ap (λ rs. send_each answer rs b)
          (ap (plan h t) kept
            ∙ sym (
                topology_plan-single c h t.exchange (record t.queue { exchange = t.exchange.name })
                  no_dlq exchanges queues named))
      ∙ sym (setup_topology-Sends answer c h b)
