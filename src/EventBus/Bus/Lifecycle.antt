-- ===== src/EventBus/Bus/Lifecycle.antt =====
-- eventbus.go: making a bus, and closing it.
use rabbitmq_kit_go.Prelude.{
  ℕ, ◌≡◌, refl, ◌∙◌, true, false, not, ◌||◌, String, Option, none, some, List, [], ◌⊎◌, inl, inr,
  ◌==◌, arith, Bool-cases, set_at,
}
use rabbitmq_kit_go.Prelude.Int.{ℤ}
use rabbitmq_kit_go.Errors.{Error, is_nil, sentinel, client_closed, new_connection_error}
use rabbitmq_kit_go.Amqp.{Publishing}
use rabbitmq_kit_go.Config.{Config}
use rabbitmq_kit_go.Config.Options.{apply_options}
use rabbitmq_kit_go.Config.Validate.{validate}
use rabbitmq_kit_go.Broker.Client
use rabbitmq_kit_go.Broker.Client.{
  Answer, Client, Net, Dialing, is_connected, connect, get_channel, set_up,
}
use rabbitmq_kit_go.Broker.Client.Connect.{Unused, Opens, connect-Opens, is_connected-close}
use rabbitmq_kit_go.Broker.Publisher
use rabbitmq_kit_go.Broker.Publisher.{
  Publisher, View, Wait, new_publisher, publish, ensure_confirms_setup,
}
use rabbitmq_kit_go.Broker.Publisher.Channels.{Go, ok}
use rabbitmq_kit_go.Broker.Publisher.Setup.{IsReady, close_done_open}
use rabbitmq_kit_go.Broker.Publisher.Steps.{IsSound, new_publisher-Sound}
use rabbitmq_kit_go.Broker.Retry.{Publish}
use rabbitmq_kit_go.Broker.Consumer.Workers.{consume}
use rabbitmq_kit_go.EventBus.Bus.{EventBus, view, new_client, bus_on, new_event_bus, close}

-- The publisher has taken the client's channel, so that the next publish resets nothing.
abbrev pub SetUp : {H : Type 0} → EventBus H → Type 0
SetUp b =
    (not b.client.config.publisher_confirms || (view b.client).channel == b.publisher.channel_id)
    ≡ true

-- A publisher that `Close` can stop: it was never started, or was not stopped since.
abbrev pub CanStop : Publisher → Type 0
CanStop p = (p.started ≡ false) ⊎ IsReady p

-- What `NewEventBus` gives with its error: no bus with an error, and without one a bus whose client is
-- open on the new connection, and whose publisher is ready for it.
abbrev pub Made : {B H : Type 0} → Config → ℕ → Error → Option (EventBus H) → Net B → Type 0
Made cfg x err bus n = elim bus [
  | none ↦ is_nil err ≡ false
  | some b ↦
      (is_nil err ≡ true)
      × (b.client.config ≡ cfg)
      × (b.client.closed ≡ false)
      × (b.client.channel ≡ some x)
      × (is_connected b.client n ≡ true)
      × SetUp b
      × IsSound b.publisher
      × CanStop b.publisher
      × (b.publisher.started ≡ b.client.config.publisher_confirms)
]

module _ {B : Type 0} (request : Answer B) where
  set_up_client : (d : Dialing) (x : ℕ) (c : Client) (n : Net B) → (set_up request d x c n).0.1 ≡ c
  unfolding set_up
  set_up_client d x c n = ground arith

  -- A connect without an error leaves the client on the new channel.
  pub connected :
      (d : Dialing) (c : Client) (n : Net B)
      → is_nil (connect request d c n).0.0 ≡ true
      → (connect request d c n).0.1 ≡ record c { conn = some n.next; channel = some n.next }
  unfolding connect set_up new_connection_error
  connected d c n h = ground arith

  -- The publisher of a new bus.
  new_publisher_lem :
      (x : ℕ) (c : Client)
      → (c.channel ≡ some x)
      → let p = new_publisher (view c) in
        ((not c.config.publisher_confirms || (view c).channel == p.channel_id) ≡ true)
        × CanStop p
        × (p.started ≡ c.config.publisher_confirms)
  unfolding new_publisher
  new_publisher_lem x c h = elim (Bool-cases c.config.publisher_confirms) [
    | inr g ↦ rw (g) (refl, inl refl, refl)
    | inl g ↦
        rw (g, h) (ground arith, inr (record { started = ground arith; done = refl }), ground arith)
  ]

  bus_on-Made :
      (H : Type 0) (d : Dialing) (c : Client) (n : Net B)
      → c.closed ≡ false
      → Unused n.next n.open_conns
      → Unused n.next n.open_channels
      → let ((err, client), n') = connect request d c n in
        let ((err', bus), n'') = bus_on {H = H} err client n' in
        Made c.config n.next err' bus n'' × Opens err' n n''
  unfolding bus_on
  bus_on-Made H d c n open_ u v =
      let ((err, client), n') = connect request d c n in
      let opens = connect-Opens request d c n u v in
      elim (Bool-cases (is_nil err)) [
        | inr g ↦ rw g (g, opens)
        | inl g ↦
            let c1 = record c { conn = some n.next; channel = some n.next } in
            let (set, stop, started) = new_publisher_lem n.next c1 refl in
            rw (g, connected d c n g)
              (
                (
                  refl,
                  refl,
                  open_,
                  refl,
                  unfold is_connected in rw (opens.0, g) (ground arith),
                  set,
                  new_publisher-Sound (view c1),
                  stop,
                  started,
                ),
                (opens.0 ∙ rw g refl, opens.1 ∙ rw g refl),
              )
      ]

  -- `NewEventBus` either returns an error and no bus, and leaves open what was open before, or returns
  -- a bus on one new connection: its client has the configuration with the options applied and is
  -- open on that connection's channel; its publisher has taken that channel, so that the first
  -- publish resets nothing, can be closed, and confirms exactly when the configuration says so.
  pub new_event_bus-Made :
      (H : Type 0) (d : Dialing) (cfg : Config) (opts : List (Config → Config)) (n : Net B)
      → Unused n.next n.open_conns
      → Unused n.next n.open_channels
      → let ((err, bus), n') = new_event_bus {H = H} request d cfg opts n in
        Made (record (apply_options opts cfg) { has_logger = true }) n.next err bus n'
        × Opens err n n'
  unfolding new_event_bus new_client
  new_event_bus-Made H d cfg opts n u v =
      let cfg' = record (apply_options opts cfg) { has_logger = true } in
      let c : Client = record { config = cfg'; conn = none; channel = none; closed = false } in
      elim (Bool-cases (is_nil (validate cfg'))) [
        | inr h ↦ rw h ((h, rw h (refl, refl)))
        | inl h ↦ rw h (bus_on-Made H d c n refl u v)
      ]

-- The publisher is stopped at most once.
stop :
    (p : Publisher)
    → CanStop p
    → (q : Publisher) × (Publisher.close p ≡ ok q)
      × (Publisher.close q ≡ ok q)
      × (q.channel_id ≡ p.channel_id)
stop p (inl h) = (p, unfold Publisher.close in rw h refl, unfold Publisher.close in rw h refl, refl)
stop p (inr r) = (
  record p { dones = set_at p.done true p.dones; started = false },
  unfold Publisher.close in rw (r.started, close_done_open p.done p.dones r.done) refl,
  unfold Publisher.close in refl,
  refl,
)

publish_closed :
    {S : Type 0} (publish_with_context : Publish S) (others : Publisher → Go Publisher) (v : View)
    (later : ℕ) (wait : Wait) (exchange routing_key : String) (msg : Publishing) (s : S)
    (p : Publisher)
    → (not v.publisher_confirms || v.channel == p.channel_id) ≡ true
    → v.closed ≡ true
    → publish publish_with_context others v later wait exchange routing_key msg s p
      ≡ ok ((sentinel client_closed, p), s)
unfolding publish ensure_confirms_setup
publish_closed publish_with_context others v later wait exchange routing_key msg s p set shut =
    rw (set, shut) refl

closes :
    {B : Type 0} (c : Client) (n : Net B)
    → let (c', n') = Client.close c n in
      (c'.closed ≡ true)
      × (Client.close c' n' ≡ (c', n'))
      × (c'.channel ≡ c.channel)
      × (c'.config.publisher_confirms ≡ c.config.publisher_confirms)
unfolding Client.close
closes c n = ground arith

still :
    (c d : Client) (x y : ℕ)
    → d.config.publisher_confirms ≡ c.config.publisher_confirms
    → d.channel ≡ c.channel
    → y ≡ x
    → (not c.config.publisher_confirms || (view c).channel == x) ≡ true
    → (not d.config.publisher_confirms || (view d).channel == y) ≡ true
still c d x y confirms channel same set = rw (confirms, channel, same) set

consume_closed :
    (c : Client) (refused : Error) (queue : String) (workers : ℤ)
    → c.closed ≡ true
    → consume c refused queue workers ≡ (sentinel client_closed, [])
unfolding consume
consume_closed c refused queue workers h = rw h refl

module _ {B H S : Type 0} (publish_with_context : Publish S)
    (others : Publisher → Go Publisher) where
  -- A bus whose publisher can be stopped and has taken the client's channel closes without a panic,
  -- and a second `Close` changes nothing. From then on no channel is handed out, a publish gives
  -- ErrClientClosed and sends nothing, and so does a consume, which starts no worker.
  pub closed_bus :
      (b : EventBus H) (n : Net B) (refused : Error) (queue : String) (workers : ℤ) (later : ℕ)
      (wait : Wait) (exchange routing_key : String) (msg : Publishing) (s : S)
      → b.client.closed ≡ false
      → CanStop b.publisher
      → SetUp b
      → (b' : EventBus H) × (n' : Net B) × (close b n ≡ ok (b', n'))
        × (close b' n' ≡ ok (b', n'))
        × (is_connected b'.client n' ≡ false)
        × (get_channel b'.client ≡ (sentinel client_closed, none))
        × (consume b'.client refused queue workers ≡ (sentinel client_closed, []))
        × (publish publish_with_context others
              (view b'.client)
              later
              wait
              exchange
              routing_key
              msg
              s
              b'.publisher
            ≡ ok ((sentinel client_closed, b'.publisher), s))
  closed_bus b n refused queue workers later wait exchange routing_key msg s open_ can set =
      let (q, once, again, same) = stop b.publisher can in
      let (c, n') = Client.close b.client n in
      let (shut, twice, channel, confirms) = closes b.client n in
      (
        record b { publisher = q; client = c },
        n',
        unfold close in rw once refl,
        unfold close in rw (again, twice) refl,
        is_connected-close b.client n open_,
        unfold get_channel in rw shut refl,
        consume_closed c refused queue workers shut,
        publish_closed publish_with_context others (view c) later wait exchange routing_key msg s q
            (still b.client c b.publisher.channel_id q.channel_id confirms channel same set) shut,
      )
