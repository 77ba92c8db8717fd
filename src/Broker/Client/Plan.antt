-- ===== src/Broker/Client/Plan.antt =====
-- The topology as a list of declarations.
use rabbitmq_kit_go.Prelude.{
  ◌≡◌, refl, sym, ◌∙◌, Bool, true, false, not, String, List, [], ◌∷◌, ◌++◌, map, if◌then◌else◌,
  str_eq, Bool-cases, inl, inr,
}
use mathlib.Core.List
use rabbitmq_kit_go.Errors.{Error, nil, is_nil, new_topology_error}
use rabbitmq_kit_go.Config.{Config}
use rabbitmq_kit_go.Config.Topology.{Heap, ExchangeConfig, QueueConfig, DlqConfig}
use rabbitmq_kit_go.Broker.Client.{
  Request, queue_bind, Answer, config_queue_with_dlx, declare_exchange, declare_queue, declare_dlq,
  bind_dlq, declare_dlx, setup_dlqs, setup_dlq, declare_exchanges, bind_keys, setup_queue,
  declare_queues, setup_topology,
}

-- The declarations in order.
unfoldable pub dlq_plan : DlqConfig → List QueueConfig → List Request
dlq_plan dlq [] = []
dlq_plan dlq (q ∷ qs) = declare_dlq dlq q ∷ bind_dlq dlq q ∷ dlq_plan dlq qs

unfoldable pub queue_plan : Heap → QueueConfig → List Request
queue_plan h q =
    declare_queue h q
    ∷ (if str_eq q.exchange ""
        then []
        else map (λ key. queue_bind q.name key q.exchange) q.routing_keys)

unfoldable pub queues_plan : Bool → DlqConfig → List QueueConfig → Heap → List Request
queues_plan dlq_enabled dlq [] h = []
queues_plan dlq_enabled dlq (q ∷ qs) h =
    let (q', h') = (if dlq_enabled then config_queue_with_dlx q dlq h else (q, h)) in
    queue_plan h' q' ++ queues_plan dlq_enabled dlq qs h'

unfoldable pub topology_plan : Config → Heap → List Request
topology_plan c h =
    (if c.dlq_enabled then declare_dlx c.dlq_config ∷ dlq_plan c.dlq_config c.queues else [])
    ++ (map (declare_exchange h) c.exchanges ++ queues_plan c.dlq_enabled c.dlq_config c.queues h)

pub topology_plan-single :
    (c : Config) (h : Heap) (ex : ExchangeConfig) (q : QueueConfig)
    → c.dlq_enabled ≡ false
    → c.exchanges ≡ ex ∷ []
    → c.queues ≡ q ∷ []
    → str_eq q.exchange "" ≡ false
    → topology_plan c h
      ≡ declare_exchange h ex
        ∷ declare_queue h q
        ∷ map (λ key. queue_bind q.name key q.exchange) q.routing_keys
unfolding topology_plan queues_plan queue_plan
topology_plan-single c h ex q no_dlq exchanges queues named =
    rw (no_dlq, exchanges, queues, named, List.append-nil) refl

-- Declarations are made in order up to the first that the broker refuses; with whether all were
-- accepted.
abbrev pub send_each : {B : Type 0} → Answer B → List Request → B → Bool × B
send_each request [] b = (true, b)
send_each request (r ∷ rs) b =
    let (err, b1) = request r b in
    let rest = send_each request rs b1 in if is_nil err then rest else (false, b1)

module _ {B : Type 0} (request : Answer B) where
  send_each-append :
      (rs rs' : List Request) (b : B)
      → send_each request (rs ++ rs') b ≡ (
          if (send_each request rs b).0
          then send_each request rs' (send_each request rs b).1
          else (false, (send_each request rs b).1))
  send_each-append [] rs' b = refl
  send_each-append (r ∷ rs) rs' b = elim (Bool-cases (is_nil (request r b).0)) [
    | inl h ↦ rw h (send_each-append rs rs' (request r b).1)
    | inr h ↦ rw h refl
  ]

  -- What a step of the setup does: it sends these declarations, and succeeds if all were accepted.
  abbrev pub Sends : List Request → B → Error × B → Type 0
  Sends rs b (err, b') = (is_nil err, b') ≡ send_each request rs b

  bind_keys-Sends :
      (name exchange : String) (keys : List String) (b : B)
      → Sends
          (map (λ key. queue_bind name key exchange) keys)
          b
          (bind_keys request name exchange keys b)
  unfolding bind_keys new_topology_error
  bind_keys-Sends name exchange [] b = refl
  bind_keys-Sends name exchange (key ∷ keys) b =
      elim (Bool-cases (is_nil (request (queue_bind name key exchange) b).0)) [
        | inl h ↦
            rw h (bind_keys-Sends name exchange keys (request (queue_bind name key exchange) b).1)
        | inr h ↦ rw h refl
      ]

  declare_exchanges-Sends :
      (h : Heap) (exs : List ExchangeConfig) (b : B)
      → Sends (map (declare_exchange h) exs) b (declare_exchanges request h exs b)
  unfolding declare_exchanges new_topology_error
  declare_exchanges-Sends h [] b = refl
  declare_exchanges-Sends h (ex ∷ exs) b =
      elim (Bool-cases (is_nil (request (declare_exchange h ex) b).0)) [
        | inl g ↦ rw g (declare_exchanges-Sends h exs (request (declare_exchange h ex) b).1)
        | inr g ↦ rw g refl
      ]

  -- One step after another, which is left out after an error.
  in_turn-Sends :
      (rs rs' : List Request) (b : B) (first second : Error × B)
      → Sends rs b first
      → Sends rs' first.1 second
      → Sends (rs ++ rs') b (if not (is_nil first.0) then first else second)
  in_turn-Sends rs rs' b first second one two = elim (Bool-cases (is_nil first.0)) [
    | inl h ↦ rw h (two ∙ sym (send_each-append rs rs' b ∙ rw (sym one) (rw h refl)))
    | inr h ↦ rw h (sym (send_each-append rs rs' b ∙ rw (sym one) (rw h refl)))
  ]

  setup_dlqs-Sends :
      (dlq : DlqConfig) (qs : List QueueConfig) (b : B)
      → Sends (dlq_plan dlq qs) b (setup_dlqs request dlq qs b)
  unfolding setup_dlqs dlq_plan new_topology_error
  setup_dlqs-Sends dlq [] b = refl
  setup_dlqs-Sends dlq (q ∷ qs) b = elim (Bool-cases (is_nil (request (declare_dlq dlq q) b).0)) [
    | inl h ↦
        elim (Bool-cases (is_nil (request (bind_dlq dlq q) (request (declare_dlq dlq q) b).1).0)) [
          | inl g ↦
              rw (h, g)
                (setup_dlqs-Sends dlq qs
                  (request (bind_dlq dlq q) (request (declare_dlq dlq q) b).1).1)
          | inr g ↦ rw (h, g) refl
        ]
    | inr h ↦ rw h refl
  ]

  setup_queue-Sends :
      (h : Heap) (q : QueueConfig) (b : B) → Sends (queue_plan h q) b (setup_queue request h q b)
  unfolding setup_queue queue_plan new_topology_error
  setup_queue-Sends h q b = elim (Bool-cases (is_nil (request (declare_queue h q) b).0)) [
    | inr f ↦ rw f refl
    | inl f ↦ elim (Bool-cases (str_eq q.exchange "")) [
      | inl g ↦ rw (f, g) refl
      | inr g ↦
          rw (f, g)
            (bind_keys-Sends q.name q.exchange q.routing_keys (request (declare_queue h q) b).1)
    ]
  ]

  keep-Sends :
      (stop : Bool) (rs : List Request) (b : B) (x y : (Error × Heap) × B)
      → Sends rs b (if stop then (x.0.0, x.1) else (y.0.0, y.1))
      → Sends rs b ((if stop then x else y).0.0, (if stop then x else y).1)
  keep-Sends true rs b x y h = h
  keep-Sends false rs b x y h = h

  declare_queues-Sends :
      (e : Bool) (dlq : DlqConfig) (qs : List QueueConfig) (h : Heap) (b : B)
      → Sends
          (queues_plan e dlq qs h)
          b
          ((declare_queues request e dlq qs h b).0.0, (declare_queues request e dlq qs h b).1)
  unfolding declare_queues queues_plan
  declare_queues-Sends e dlq [] h b = refl
  declare_queues-Sends e dlq (q ∷ qs) h b =
      let (q', h') = (if e then config_queue_with_dlx q dlq h else (q, h)) in
      let (err, b1) = setup_queue request h' q' b in
      let rest = declare_queues request e dlq qs h' b1 in
      keep-Sends (not (is_nil err)) (queue_plan h' q' ++ queues_plan e dlq qs h') b ((err, h'), b1)
        rest
        (in_turn-Sends (queue_plan h' q') (queues_plan e dlq qs h') b (err, b1) (rest.0.0, rest.1)
          (setup_queue-Sends h' q' b) (declare_queues-Sends e dlq qs h' b1))

  setup_dlq-Sends :
      (e : Bool) (dlq : DlqConfig) (qs : List QueueConfig) (b : B)
      → Sends
          (if e then declare_dlx dlq ∷ dlq_plan dlq qs else [])
          b
          (if e then setup_dlq request dlq qs b else (nil, b))
  unfolding setup_dlq new_topology_error
  setup_dlq-Sends false dlq qs b = refl
  setup_dlq-Sends true dlq qs b = elim (Bool-cases (is_nil (request (declare_dlx dlq) b).0)) [
    | inl h ↦ rw h (setup_dlqs-Sends dlq qs (request (declare_dlx dlq) b).1)
    | inr h ↦ rw h refl
  ]

  -- Connecting sends the declarations of the plan in its order, up to the first that the broker
  -- refuses, and no other; it succeeds exactly if the broker accepts them all. The plan has the dead
  -- letter exchange with the queues that receive dead letters first, then the exchanges, then each
  -- queue before its bindings.
  pub setup_topology-Sends :
      (c : Config) (h : Heap) (b : B)
      → Sends
          (topology_plan c h)
          b
          ((setup_topology request c h b).0.0, (setup_topology request c h b).1)
  unfolding setup_topology topology_plan
  setup_topology-Sends c h b =
      let dlqs =
        (if c.dlq_enabled then declare_dlx c.dlq_config ∷ dlq_plan c.dlq_config c.queues else []) in
      let queues = queues_plan c.dlq_enabled c.dlq_config c.queues h in
      let first = (if c.dlq_enabled then setup_dlq request c.dlq_config c.queues b else (nil, b)) in
      let second = declare_exchanges request h c.exchanges first.1 in
      let third = declare_queues request c.dlq_enabled c.dlq_config c.queues h second.1 in
      let after = (if not (is_nil second.0) then ((second.0, h), second.1) else third) in
      keep-Sends (not (is_nil first.0)) (dlqs ++ (map (declare_exchange h) c.exchanges ++ queues)) b
        ((first.0, h), first.1) after
        (in_turn-Sends dlqs (map (declare_exchange h) c.exchanges ++ queues) b first
          (after.0.0, after.1) (setup_dlq-Sends c.dlq_enabled c.dlq_config c.queues b)
          (keep-Sends (not (is_nil second.0)) (map (declare_exchange h) c.exchanges ++ queues)
            first.1 ((second.0, h), second.1) third
            (in_turn-Sends (map (declare_exchange h) c.exchanges) queues first.1 second
              (third.0.0, third.1) (declare_exchanges-Sends h c.exchanges first.1)
              (declare_queues-Sends c.dlq_enabled c.dlq_config c.queues h second.1))))
