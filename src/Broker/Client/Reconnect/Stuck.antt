-- ===== src/Broker/Client/Reconnect/Stuck.antt =====
-- A client whose handler waits for a signal that nobody is left to send.
use rabbitmq_kit_go.Prelude.{◌≡◌, ◌⊎◌, inl, inr, refl, true, false, arith}
use rabbitmq_kit_go.Broker.Client.Reconnect.{
  starting, listening, woken, live, lost, Loop, Step, breaks, signals, drops, ignores, listens,
  stops, proceeds, connects, fails, accepts, rechecks, gives_up, closes, reconnects, Reach, here,
  next,
}

-- A client that was not closed, without a connection, whose handler waits for a signal that no
-- watcher is left to send.
pub record IsStuck (s : Loop) : Type 0 where
  pub handler : s.handler ≡ listening
  pub link : s.link ≡ lost
  pub open_ : s.closed ≡ false

-- From any state with a connection in which the handler is about to listen, there is a run that
-- brings a client that is open into a stuck state.
pub starting-IsStuck :
    (s : Loop)
    → s.handler ≡ starting
    → s.link ≡ live
    → s.closed ≡ false
    → (t : Loop) × Reach s t × IsStuck t
starting-IsStuck s handler link open_ = (
  record s { link = lost; handler = listening },
  next (next (next here (breaks link)) (drops refl open_ (λ h. ground (arith, handler, h))))
      (listens handler),
  record { handler = refl; link = refl; open_ = open_ },
)

-- Every step from a stuck state is a call of `Reconnect` or of `Close`: nothing else ends it.
pub stuck_steps :
    (s t : Loop)
    → IsStuck s
    → Step s t
    → (t ≡ record s { handler = woken }) ⊎ (t ≡ record s { link = lost; closed = true })
stuck_steps s t k (breaks h) = absurd (ground (arith, h, k.link))
stuck_steps s t k (signals h c l) = absurd (ground (arith, h, k.link))
stuck_steps s t k (drops h c l) = absurd (l k.handler)
stuck_steps s t k (ignores h c) = absurd (ground (arith, h, k.link))
stuck_steps s t k (listens h) = absurd (ground (arith, h, k.handler))
stuck_steps s t k (stops h c) = absurd (ground (arith, h, k.handler))
stuck_steps s t k (proceeds h c) = absurd (ground (arith, h, k.handler))
stuck_steps s t k (connects h c) = absurd (ground (arith, h, k.handler))
stuck_steps s t k (fails h c) = absurd (ground (arith, h, k.handler))
stuck_steps s t k (accepts h c) = absurd (ground (arith, h, k.handler))
stuck_steps s t k (rechecks h l) = absurd (ground (arith, h, k.handler))
stuck_steps s t k (gives_up h c) = absurd (ground (arith, h, k.handler))
stuck_steps s t k closes = inr refl
stuck_steps s t k (reconnects c h) = inl refl
