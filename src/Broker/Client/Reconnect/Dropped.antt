-- ===== src/Broker/Client/Reconnect/Dropped.antt =====
-- What a signal that the watcher drops leads to.
use rabbitmq_kit_go.Prelude.{ℕ, suc, ◌≡◌, ◌⊎◌, inl, inr, refl, true, false, arith}
use rabbitmq_kit_go.Broker.Client.Reconnect.{
  starting, listening, broken, lost, Loop, Step, breaks, signals, drops, ignores, listens, stops,
  proceeds, connects, fails, accepts, rechecks, gives_up, closes, reconnects, Reach, here, next,
}

-- A call of `Reconnect` that wakes the handler, and such calls in a run.
abbrev pub is_call : (s t : Loop) → Step s t → ℕ → ℕ
is_call s t (reconnects c h) n = suc n
is_call s t step n = n

unfoldable pub calls : (s t : Loop) → Reach s t → ℕ
calls s t here = 0
calls s t (next {t = m} r step) = is_call m t step (calls s m r)

-- The connection is closed and unwatched, and the handler is at its receive or about to be.
pub record IsDown (s : Loop) : Type 0 where
  pub handler : (s.handler ≡ starting) ⊎ (s.handler ≡ listening)
  pub link : s.link ≡ lost

Step-IsDown : (s t : Loop) (step : Step s t) → is_call s t step 0 ≡ 0 → IsDown s → IsDown t
Step-IsDown s t (breaks h) n d = absurd (ground (arith, h, d.link))
Step-IsDown s t (signals h c l) n d = absurd (ground (arith, h, d.link))
Step-IsDown s t (drops h c l) n d = absurd (ground (arith, h, d.link))
Step-IsDown s t (ignores h c) n d = absurd (ground (arith, h, d.link))
Step-IsDown s t (listens h) n d = record { handler = inr refl; link = d.link }
Step-IsDown s t (stops h c) n d = absurd (ground (arith, h, d.handler))
Step-IsDown s t (proceeds h c) n d = absurd (ground (arith, h, d.handler))
Step-IsDown s t (connects h c) n d = absurd (ground (arith, h, d.handler))
Step-IsDown s t (fails h c) n d = absurd (ground (arith, h, d.handler))
Step-IsDown s t (accepts h c) n d = absurd (ground (arith, h, d.handler))
Step-IsDown s t (rechecks h l) n d = absurd (ground (arith, h, d.handler))
Step-IsDown s t (gives_up h c) n d = absurd (ground (arith, h, d.handler))
Step-IsDown s t closes n d = record { handler = d.handler; link = refl }
Step-IsDown s t (reconnects c h) n d = absurd (omega (arith, n))

is_call-zero :
    (s t : Loop) (step : Step s t) (n : ℕ)
    → is_call s t step n ≡ 0
    → (n ≡ 0) × (is_call s t step 0 ≡ 0)
is_call-zero s t (reconnects c h) n e = absurd (omega (arith, e))
is_call-zero s t (breaks h) n e = (e, refl)
is_call-zero s t (signals h c l) n e = (e, refl)
is_call-zero s t (drops h c l) n e = (e, refl)
is_call-zero s t (ignores h c) n e = (e, refl)
is_call-zero s t (listens h) n e = (e, refl)
is_call-zero s t (stops h c) n e = (e, refl)
is_call-zero s t (proceeds h c) n e = (e, refl)
is_call-zero s t (connects h c) n e = (e, refl)
is_call-zero s t (fails h c) n e = (e, refl)
is_call-zero s t (accepts h c) n e = (e, refl)
is_call-zero s t (rechecks h l) n e = (e, refl)
is_call-zero s t (gives_up h c) n e = (e, refl)
is_call-zero s t closes n e = (e, refl)

Reach-IsDown : (s t : Loop) (r : Reach s t) → calls s t r ≡ 0 → IsDown s → IsDown t
unfolding calls
Reach-IsDown s t here none_called d = d
Reach-IsDown s t (next {t = m} r step) none_called d =
    let (before, this) = is_call-zero m t step (calls s m r) none_called in
    Step-IsDown m t step this (Reach-IsDown s m r before d)

starting_steps :
    (s t : Loop)
    → s.handler ≡ starting
    → s.link ≡ broken
    → s.closed ≡ false
    → Step s t
    → (t ≡ record s { link = lost })
      ⊎ (t ≡ record s { handler = listening })
      ⊎ (t ≡ record s { link = lost; closed = true })
starting_steps s t h l c (breaks l') = absurd (ground (arith, l, l'))
starting_steps s t h l c (signals l' c' h') = absurd (ground (arith, h, h'))
starting_steps s t h l c (drops l' c' h') = inl refl
starting_steps s t h l c (ignores l' c') = absurd (ground (arith, c, c'))
starting_steps s t h l c (listens h') = inr (inl refl)
starting_steps s t h l c (stops h' c') = absurd (ground (arith, h, h'))
starting_steps s t h l c (proceeds h' c') = absurd (ground (arith, h, h'))
starting_steps s t h l c (connects h' c') = absurd (ground (arith, h, h'))
starting_steps s t h l c (fails h' c') = absurd (ground (arith, h, h'))
starting_steps s t h l c (accepts h' c') = absurd (ground (arith, h, h'))
starting_steps s t h l c (rechecks h' l') = absurd (ground (arith, h, h'))
starting_steps s t h l c (gives_up h' c') = absurd (ground (arith, h, h'))
starting_steps s t h l c closes = inr (inr refl)
starting_steps s t h l c (reconnects c' h') = absurd (ground (arith, h, h'))

-- A connection breaks before the handler is back at its receive, in a client that is open. The next
-- step is one of three: the watcher drops its signal, the handler comes to its receive, or `Close`
-- is called. If the watcher drops its signal, then in every run from there in which no call of
-- `Reconnect` wakes the handler the client stays without a connection, and its handler never
-- leaves its receive to replace it. (Watchers of earlier connections are not in this relation.)
pub dropped_stays_lost :
    (s m t : Loop)
    → s.handler ≡ starting
    → s.link ≡ broken
    → s.closed ≡ false
    → Step s m
    → (r : Reach (record s { link = lost }) t) → calls (record s { link = lost }) t r ≡ 0
    → ((m ≡ record s { link = lost })
        ⊎ (m ≡ record s { handler = listening })
        ⊎ (m ≡ record s { link = lost; closed = true }))
      × (t.link ≡ lost)
      × ((t.handler ≡ starting) ⊎ (t.handler ≡ listening))
dropped_stays_lost s m t h l c step r none_called =
    let down =
      Reach-IsDown (record s { link = lost }) t r none_called
        (record { handler = inl h; link = refl }) in
    (starting_steps s m h l c step, down.link, down.handler)
