-- ===== src/Broker/Client/Reconnect.antt =====
-- internal/broker/client.go: the goroutine `handleReconnect`, the watcher that each `connect`
-- starts, and `Close`. The channel `done` has no buffer, so a signal gets through only while the
-- handler waits for one; otherwise the watcher drops it. Only the newest connection and its watcher
-- are followed here; the watchers of earlier ones are added in Watchers.
pub mod Stuck
pub mod Dropped
pub mod Closed
use rabbitmq_kit_go.Prelude.{
  ℕ, suc, ◌≡◌, ◌≢◌, ◌⊎◌, inl, inr, refl, Bool, true, false, if◌then◌else◌, arith,
}

-- Where the handler is: not yet started, or past a successful connect and before the receive
-- (`starting`), at the receive, between the receive and the check of `closed`, in the loop of
-- connects, past a connect that returned no error and before its test of `IsClosed`, or returned.
pub data Phase : Type 0 where
  starting : Phase
  listening : Phase
  woken : Phase
  trying : Phase
  checking : Phase
  stopped : Phase

-- The client's connection or channel: in use; closed unexpectedly, with its watcher about to
-- signal; or closed, with its watcher gone.
pub data Link : Type 0 where
  live : Link
  broken : Link
  lost : Link

pub record Loop : Type 0 where
  pub handler : Phase
  pub link : Link
  pub closed : Bool

-- After `New`: connected, and the handler's goroutine about to start.
abbrev pub fresh : Loop
fresh = record { handler = starting; link = live; closed = false }

-- One step of the broker, the watcher, the handler or a caller of `Close` or `Reconnect`.
pub data Step (s : Loop) : Loop → Type 0 where
  breaks : s.link ≡ live → Step s (record s { link = broken })
  signals :
      s.link ≡ broken
      → s.closed ≡ false
      → s.handler ≡ listening
      → Step s (record s { link = lost; handler = woken })
  drops :
      s.link ≡ broken → s.closed ≡ false → s.handler ≢ listening → Step s (record s { link = lost })
  ignores : s.link ≡ broken → s.closed ≡ true → Step s (record s { link = lost })
  listens : s.handler ≡ starting → Step s (record s { handler = listening })
  stops : s.handler ≡ woken → s.closed ≡ true → Step s (record s { handler = stopped })
  proceeds : s.handler ≡ woken → s.closed ≡ false → Step s (record s { handler = trying })
  connects :
      s.handler ≡ trying → s.closed ≡ false → Step s (record s { handler = checking; link = live })
  -- a connect that fails once it has stored its connection, which it closes unwatched
  fails : s.handler ≡ trying → s.closed ≡ false → Step s (record s { link = lost })
  -- `IsClosed` is false: the connection is open, though its channel may have been closed
  accepts : s.handler ≡ checking → s.closed ≡ false → Step s (record s { handler = starting })
  -- `IsClosed` is true, and the loop goes round
  rechecks : s.handler ≡ checking → s.link ≢ live → Step s (record s { handler = trying })
  gives_up : s.handler ≡ trying → s.closed ≡ true → Step s (record s { handler = stopped })
  closes : Step s (record s { link = lost; closed = true })
  reconnects : s.closed ≡ false → s.handler ≡ listening → Step s (record s { handler = woken })

pub data Reach (s : Loop) : Loop → Type 0 where
  here : Reach s s
  next : {t u : Loop} → Reach s t → Step t u → Reach s u

abbrev is_listening : Phase → Bool
is_listening listening = true
is_listening starting = false
is_listening woken = false
is_listening trying = false
is_listening checking = false
is_listening stopped = false

-- The call `Reconnect`: a send that does not wait.
unfoldable pub reconnect : Loop → Loop
reconnect s =
    if s.closed then s else (if is_listening s.handler then record s { handler = woken } else s)

-- It is a step of the loop, or is dropped.
pub reconnect_lem : (s : Loop) → (reconnect s ≡ s) ⊎ Step s (reconnect s)
unfolding reconnect
reconnect_lem s = at s.handler s.link s.closed
  where
    at :
        (handler : Phase) (link : Link) (closed : Bool)
        → let s : Loop = record { handler = handler; link = link; closed = closed } in
          (reconnect s ≡ s) ⊎ Step s (reconnect s)
    at handler link true = inl refl
    at listening link false = inr (reconnects refl refl)
    at starting link false = inl refl
    at woken link false = inl refl
    at trying link false = inl refl
    at checking link false = inl refl
    at stopped link false = inl refl

-- A connection that breaks while the handler listens is replaced, if connecting succeeds.
pub broken_recovers :
    (s : Loop)
    → s.handler ≡ listening
    → s.link ≡ broken
    → s.closed ≡ false
    → Reach s (record s { handler = starting; link = live })
broken_recovers s handler link open_ =
    next
      (next (next (next here (signals link open_ handler)) (proceeds refl open_))
        (connects refl open_))
      (accepts refl open_)
