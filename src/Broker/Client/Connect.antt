-- ===== src/Broker/Client/Connect.antt =====
-- What `connect` and `Close` leave open.
use rabbitmq_kit_go.Prelude.{
  ℕ, ◌+◌, ◌≡◌, refl, ◌∙◌, ap, true, false, not, ◌&&◌, ◌||◌, none, some, List, [], ◌∷◌, All,
  if◌then◌else◌, ◌==◌, arith, Option-cases, Bool-cases, inl, inr,
}
use rabbitmq_kit_go.Errors.{Error, is_nil, new_connection_error, sentinel, client_closed}
use rabbitmq_kit_go.Broker.Client.{
  Answer, Client, Net, Dialing, close_id, close_both, set_up, connect, close, get_channel,
  setup_topology, contains, is_connected,
}

-- A number that is not in a list.
abbrev pub Unused : ℕ → List ℕ → Type 0
Unused x xs = All (λ y. (y == x) ≡ false) xs

close_id-Unused : (x : ℕ) (ys : List ℕ) → Unused x ys → close_id x ys ≡ ys
unfolding close_id
close_id-Unused x [] u = refl
close_id-Unused x (y ∷ ys) u = rw (u.0, close_id-Unused x ys u.1) refl

close_id_head : (x : ℕ) (ys : List ℕ) → Unused x ys → close_id x (x ∷ ys) ≡ ys
unfolding close_id
close_id_head x ys u = let here : (x == x) ≡ true = ground arith in rw here (close_id-Unused x ys u)

-- What is open after `connect`: on success one connection and channel more.
abbrev pub Opens : {B : Type 0} → Error → Net B → Net B → Type 0
Opens err n n' =
    (n'.open_conns ≡ (if is_nil err then n.next ∷ n.open_conns else n.open_conns))
    × (n'.open_channels ≡ (if is_nil err then n.next ∷ n.open_channels else n.open_channels))

closed_again :
    {B : Type 0} (err : Error) (n opened : Net B)
    → is_nil err ≡ false
    → Unused n.next n.open_conns
    → Unused n.next n.open_channels
    → opened.open_conns ≡ n.next ∷ n.open_conns
    → opened.open_channels ≡ n.next ∷ n.open_channels
    → Opens err n (close_both n.next opened)
closed_again err n opened failed u v conns channels = rw failed (
  ap (close_id n.next) conns ∙ close_id_head n.next n.open_conns u,
  ap (close_id n.next) channels ∙ close_id_head n.next n.open_channels v,
)

module _ {B : Type 0} (request : Answer B) where
  set_up-Opens :
      (d : Dialing) (c : Client) (n opened : Net B)
      → Unused n.next n.open_conns
      → Unused n.next n.open_channels
      → opened.open_conns ≡ n.next ∷ n.open_conns
      → opened.open_channels ≡ n.next ∷ n.open_channels
      → let ((err, c'), n') = set_up request d n.next c opened in Opens err n n'
  unfolding set_up new_connection_error
  set_up-Opens d c n opened u v conns channels = elim (Bool-cases (is_nil d.qos)) [
    | inr h ↦
        rw h (closed_again (new_connection_error "set qos" d.qos) n opened refl u v conns channels)
    | inl h ↦ elim (Bool-cases (c.config.publisher_confirms && not (is_nil d.confirm))) [
      | inl g ↦
          rw (h, g)
            (closed_again (new_connection_error "enable publisher confirms" d.confirm) n opened refl
              u v conns channels)
      | inr g ↦
          let ((err, heap), broker) = setup_topology request c.config opened.heap opened.broker in
          elim (Bool-cases (is_nil err)) [
            | inl f ↦ rw (h, g, f) (conns, channels)
            | inr f ↦
                rw (h, g, f)
                  (closed_again err n (record opened { heap = heap; broker = broker }) f u v conns
                    channels)
          ]
    ]
  ]

  -- What is open after it.
  pub connect-Opens :
      (d : Dialing) (c : Client) (n : Net B)
      → Unused n.next n.open_conns
      → Unused n.next n.open_channels
      → Opens (connect request d c n).0.0 n (connect request d c n).1
  unfolding connect new_connection_error
  connect-Opens d c n u v = elim (Bool-cases c.closed) [
    | inl h ↦ rw h (refl, refl)
    | inr h ↦ elim (Bool-cases (is_nil d.dial)) [
      | inr g ↦ rw (h, g) (refl, refl)
      | inl g ↦ elim (Bool-cases (is_nil d.open_channel)) [
        | inr f ↦ rw (h, g, f) (close_id_head n.next n.open_conns u, refl)
        | inl f ↦
            rw (h, g, f)
              (set_up-Opens d
                (record c { conn = some n.next; channel = some n.next; closed = false }) n
                (record n {
                  next = n.next + 1;
                  open_conns = n.next ∷ n.open_conns;
                  open_channels = n.next ∷ n.open_channels;
                })
                u v refl refl)
      ]
    ]
  ]

  -- The client's connection and channel after a connect.
  connect-client :
      (d : Dialing) (c : Client) (n : Net B)
      → let ((err, c'), n') = connect request d c n in
        c' ≡ (
          if is_nil err || (not c.closed && (is_nil d.dial && is_nil d.open_channel))
          then record c { conn = some n.next; channel = some n.next }
          else c)
  unfolding connect set_up new_connection_error
  connect-client d c n = ground arith

  -- A connect that succeeds opens one connection with one channel, which are the client's from then
  -- on, and closes none: the connection that the client had before stays open if it was. A connect
  -- that fails, at whatever point, leaves open exactly what was open before. If it fails before its
  -- channel is open, the client keeps what it had; if later, the client is left with the new
  -- connection and channel.
  pub connect_lem :
      (d : Dialing) (c : Client) (n : Net B)
      → Unused n.next n.open_conns
      → Unused n.next n.open_channels
      → let ((err, c'), n') = connect request d c n in
        Opens err n n'
        × (c' ≡ (
            if is_nil err || (not c.closed && (is_nil d.dial && is_nil d.open_channel))
            then record c { conn = some n.next; channel = some n.next }
            else c))
  connect_lem d c n u v = (connect-Opens d c n u v, connect-client d c n)

  -- Close is for good: a second close changes nothing, no channel is handed out any more, and every
  -- later connect, by the reconnect loop for one, is refused and opens nothing.
  pub closed_for_good :
      (d : Dialing) (c : Client) (n : Net B)
      → let (c', n') = close c n in
        (close c' n' ≡ (c', n'))
        × (get_channel c' ≡ (sentinel client_closed, none))
        × (connect request d c' n' ≡ ((sentinel client_closed, c'), n'))
  unfolding close get_channel connect
  closed_for_good d c n = elim (Bool-cases c.closed) [
    | inl h ↦ rw h (refl, refl, refl)
    | inr h ↦ rw h (refl, refl, refl)
  ]

contains-close_id : (x : ℕ) (ys : List ℕ) → contains x (close_id x ys) ≡ false
unfolding close_id
contains-close_id x [] = refl
contains-close_id x (y ∷ ys) = ground (arith, contains-close_id x ys)

pub is_connected-close :
    {B : Type 0} (c : Client) (n : Net B)
    → c.closed ≡ false
    → let (c', n') = close c n in is_connected c' n' ≡ false
unfolding close is_connected
is_connected-close c n open_ = elim (Option-cases c.conn) [
  | inl h ↦ rw (open_, h) refl
  | inr (x, h) ↦ rw (open_, h, h) (contains-close_id x n.open_conns)
]
