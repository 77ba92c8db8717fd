-- ===== src/Broker/Client/DeadLetters.antt =====
-- Where the declarations of `setupTopology` send the dead letters of a queue.
use mathlib.Core.Path.{subst}
use mathlib.Core.List.Memᴰ
use mathlib.Core.List.Memᴰ.{Memᴰ, head, tail}
use rabbitmq_kit_go.Prelude.{
  ◌≡◌, refl, ◌∙◌, sym, ap, Bool, true, false, none, some, List, [], ◌∷◌, ◌++◌, map, String,
}
use rabbitmq_kit_go.Prelude.GoMap.{GoMap, lookup, insert, lookup-insert, lookup-empty}
use mathlib.Core.List
use rabbitmq_kit_go.Errors.{nil, is_nil}
use rabbitmq_kit_go.Amqp.{Value, string}
use rabbitmq_kit_go.Config.{Config}
use rabbitmq_kit_go.Config.Topology.{
  Heap, read, QueueConfig, DlqConfig, get_dlq_name, get_dlx_routing_key, dead_letter_exchange,
  dead_letter_routing_key, with_dlx,
}
use rabbitmq_kit_go.Config.Dlx.{read-with_dlx, lookup-new_args}
use rabbitmq_kit_go.Broker.Client.{
  Request, Answer, setup_topology, exchange_declare, queue_bind, declare_exchange, queue_declare,
  config_queue_with_dlx, declare_dlq, bind_dlq, declare_dlx,
}
use rabbitmq_kit_go.Broker.Client.Plan.{
  topology_plan, queues_plan, queue_plan, dlq_plan, send_each, setup_topology-Sends,
}

-- The arguments send the dead letters of a queue to this exchange, with this routing key.
abbrev pub DeadLettersTo : String → String → GoMap Value → Type 0
DeadLettersTo x k args =
    (lookup dead_letter_exchange args ≡ some (string x))
    × (lookup dead_letter_routing_key args ≡ some (string k))

-- The queue is declared with such arguments.
abbrev pub Declared : DlqConfig → QueueConfig → List Request → Type 0
Declared dlq q plan =
    (args : GoMap Value) × Memᴰ (queue_declare q.name q.durable q.auto_delete q.exclusive args) plan
    × DeadLettersTo dlq.exchange_name (get_dlx_routing_key dlq q.name) args

with_dlx-DeadLettersTo :
    (x k : String) (q : QueueConfig) (h : Heap)
    → q.args ≡ none
    → let (q', h') = with_dlx x k q h in DeadLettersTo x k (read h' q'.args)
with_dlx-DeadLettersTo x k q h none_ =
    let args : read (with_dlx x k q h).1 (with_dlx x k q h).0.args
        ≡ insert dead_letter_routing_key (string k) (insert dead_letter_exchange (string x) []) =
      read-with_dlx x k q h (rw none_ tt) ∙ rw (none_, lookup-empty dead_letter_exchange) refl in
    (rw args (lookup-new_args x k []), rw args (simp lookup-insert))

queues_plan-Declared :
    (dlq : DlqConfig) (q : QueueConfig) (qs : List QueueConfig) (h : Heap)
    → Memᴰ q qs
    → q.args ≡ none
    → Declared dlq q (queues_plan true dlq qs h)
unfolding queues_plan queue_plan config_queue_with_dlx with_dlx
queues_plan-Declared dlq q [] h m none_ = elim m [ ]
queues_plan-Declared dlq q (q0 ∷ qs) h (head e) none_ =
    let (q', h') = config_queue_with_dlx q dlq h in
    subst (λ z. Declared dlq q (queues_plan true dlq (z ∷ qs) h)) e
      (
        read h' q'.args,
        head refl,
        with_dlx-DeadLettersTo dlq.exchange_name (get_dlx_routing_key dlq q.name) q h none_,
      )
queues_plan-Declared dlq q (q0 ∷ qs) h (tail m) none_ =
    let (q', h') = config_queue_with_dlx q0 dlq h in
    let (args, found, to) = queues_plan-Declared dlq q qs h' m none_ in
    (args, Memᴰ.append_right (queue_plan h' q') found, to)

dlq_plan-mem :
    (dlq : DlqConfig) (q : QueueConfig) (qs : List QueueConfig)
    → Memᴰ q qs
    → Memᴰ (declare_dlq dlq q) (dlq_plan dlq qs) × Memᴰ (bind_dlq dlq q) (dlq_plan dlq qs)
unfolding dlq_plan
dlq_plan-mem dlq q [] m = elim m [ ]
dlq_plan-mem dlq q (q0 ∷ qs) (head e) =
    (head (ap (declare_dlq dlq) e), tail (head (ap (bind_dlq dlq) e)))
dlq_plan-mem dlq q (q0 ∷ qs) (tail m) =
    let (declared, bound) = dlq_plan-mem dlq q qs m in (tail (tail declared), tail (tail bound))

-- The plan has what sends the dead letters of a queue on.
topology_plan-Declared :
    (c : Config) (h : Heap) (q : QueueConfig)
    → c.dlq_enabled ≡ true
    → Memᴰ q c.queues
    → q.args ≡ none
    → Declared c.dlq_config q (topology_plan c h)
      × Memᴰ (declare_dlx c.dlq_config) (topology_plan c h)
      × Memᴰ (declare_dlq c.dlq_config q) (topology_plan c h)
      × Memᴰ (bind_dlq c.dlq_config q) (topology_plan c h)
unfolding topology_plan
topology_plan-Declared c h q enabled m none_ =
    let dlq = c.dlq_config in
    let dlqs = declare_dlx dlq ∷ dlq_plan dlq c.queues in
    let exchanges = map (declare_exchange h) c.exchanges in
    let rest = exchanges ++ queues_plan true dlq c.queues h in
    let (args, found, to) = queues_plan-Declared dlq q c.queues h m none_ in
    let (declared, bound) = dlq_plan-mem dlq q c.queues m in
    rw enabled (
      (args, Memᴰ.append_right dlqs (Memᴰ.append_right exchanges found), to),
      head refl,
      Memᴰ.append_left rest (tail declared),
      Memᴰ.append_left rest (tail bound),
    )

-- A broker that accepts every declaration and keeps them in order.
abbrev pub accepts : Answer (List Request)
accepts r sent = (nil, sent ++ r ∷ [])

send_each-accepts : (rs sent : List Request) → send_each accepts rs sent ≡ (true, sent ++ rs)
send_each-accepts [] sent = simp List.append-nil
send_each-accepts (r ∷ rs) sent =
    send_each-accepts rs (sent ++ r ∷ []) ∙ ap (λ l. (true, l)) (simp List.append_assoc)

-- A broker that accepts every declaration gets the whole plan.
accepted :
    (c : Config) (h : Heap)
    → let ((err, h'), sent) = setup_topology accepts c h [] in
      let whole : Bool × List Request = (is_nil err, sent) in whole ≡ (true, topology_plan c h)
accepted c h = setup_topology-Sends accepts c h [] ∙ send_each-accepts (topology_plan c h) []

-- With dead letters enabled and a broker that accepts every declaration, `setupTopology` has no
-- error, and a queue that was configured without arguments is declared with the dead letter exchange
-- of the configuration and its dead letter routing key as arguments; that exchange is declared, and
-- so is the queue's dead letter queue, which is bound to that exchange with the same routing key.
pub setup_topology-Declared :
    (c : Config) (h : Heap) (q : QueueConfig)
    → c.dlq_enabled ≡ true
    → Memᴰ q c.queues
    → q.args ≡ none
    → let dlq = c.dlq_config in
      let ((err, h'), sent) = setup_topology accepts c h [] in
      (is_nil err ≡ true)
      × Declared dlq q sent
      × Memᴰ
          (exchange_declare dlq.exchange_name dlq.exchange_type dlq.durable dlq.auto_delete false
            [])
          sent
      × Memᴰ (queue_declare (get_dlq_name dlq q.name) dlq.durable dlq.auto_delete false []) sent
      × Memᴰ
          (queue_bind (get_dlq_name dlq q.name) (get_dlx_routing_key dlq q.name) dlq.exchange_name)
          sent
setup_topology-Declared c h q enabled m none_ =
    let whole = accepted c h in
    let (declared, dlx, dlqs, bound) =
      subst
        (λ sent.
          Declared c.dlq_config q sent
          × Memᴰ (declare_dlx c.dlq_config) sent
          × Memᴰ (declare_dlq c.dlq_config q) sent
          × Memᴰ (bind_dlq c.dlq_config q) sent)
        (sym (ap (λ r. r.1) whole)) (topology_plan-Declared c h q enabled m none_) in
    (ap (λ r. r.0) whole, declared, dlx, dlqs, bound)
