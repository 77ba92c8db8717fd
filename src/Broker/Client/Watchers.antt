-- ===== src/Broker/Client/Watchers.antt =====
-- internal/broker/client.go: the watchers of connections that a reconnect has replaced, on top of the
-- loop of `handleReconnect`. `connect` does not close the connection before, so its watcher lives
-- on until that connection is closed too, and then signals like any other.
use rabbitmq_kit_go.Prelude.{ℕ, zero, suc, ◌+◌, ◌≤◌, ◌≡◌, ◌≢◌, inl, refl, true, false, arith}
use mathlib.Core.Path.{subst}
use rabbitmq_kit_go.Broker.Client.Reconnect.{
  Phase, starting, listening, woken, trying, stopped, Link, live, broken, lost, Loop, fresh, Step,
  breaks, signals, drops, ignores, listens, stops, proceeds, connects, gives_up, fails, accepts,
  rechecks, checking, closes, reconnects,
}
use rabbitmq_kit_go.Broker.Client.Reconnect.Dropped.{is_call}
use rabbitmq_kit_go.Broker.Client.Reconnect.Closed.{
  DownIfClosed, Step-DownIfClosed, DownIfClosed-link,
}

-- `old` are the replaced connections whose watcher has yet to signal. The other fields count: the
-- connects that replaced a connection whose watcher had not signalled, the calls of `Reconnect`
-- that woke the handler, and the connects whose connection was closed again when the handler
-- looked at it.
pub record Watched : Type 0 where
  pub loop : Loop
  pub old : ℕ
  pub replaced : ℕ
  pub calls : ℕ
  pub retries : ℕ

abbrev pub start : Watched
start = record { loop = fresh; old = 0; replaced = 0; calls = 0; retries = 0 }

-- The watcher of the client's connection has yet to signal.
abbrev watched : Link → ℕ
watched live = 1
watched broken = 1
watched lost = 0

abbrev one_more : Link → ℕ → ℕ
one_more live n = suc n
one_more broken n = suc n
one_more lost n = n

-- The counts after a step.
abbrev replaces : (s t : Loop) → Step s t → ℕ → ℕ
replaces s t (connects h c) n = one_more s.link n
replaces s t (fails h c) n = one_more s.link n
replaces s t step n = n

abbrev retry : (s t : Loop) → Step s t → ℕ → ℕ
retry s t (rechecks h l) n = suc n
retry s t step n = n

-- A step of the loop, or of the watcher of a replaced connection that is closed.
pub data Move (s : Watched) : Watched → Type 0 where
  loops :
      (t : Loop) (step : Step s.loop t)
      → Move s (record {
        loop = t;
        old = replaces s.loop t step s.old;
        replaced = replaces s.loop t step s.replaced;
        calls = is_call s.loop t step s.calls;
        retries = retry s.loop t step s.retries;
      })
  old_signals :
      {n : ℕ}
      → s.old ≡ suc n
      → s.loop.closed ≡ false
      → s.loop.handler ≡ listening
      → Move s (record s { loop = record s.loop { handler = woken }; old = n })
  old_drops :
      {n : ℕ}
      → s.old ≡ suc n
      → s.loop.closed ≡ false
      → s.loop.handler ≢ listening
      → Move s (record s { old = n })
  old_ignores : {n : ℕ} → s.old ≡ suc n → s.loop.closed ≡ true → Move s (record s { old = n })

pub data Moves (s : Watched) : Watched → Type 0 where
  here : Moves s s
  next : {t u : Watched} → Moves s t → Move t u → Moves s u

-- A handler that has been woken is about to replace a connection that is watched.
abbrev about : Phase → Link → ℕ
about woken link = watched link
about trying link = watched link
about checking link = 0
about starting link = 0
about listening link = 0
about stopped link = 0

-- The watchers of replaced connections, with the one that is about to be, are at most the calls of
-- `Reconnect` and the retries; without any of these nothing has been replaced.
record Counted (s : Watched) : Type 0 where
  old : s.old + about s.loop.handler s.loop.link ≤ s.calls + s.retries
  replaced : s.calls + s.retries ≡ 0 → s.replaced ≡ 0

about-lost : (h : Phase) → about h lost ≡ 0
about-lost woken = refl
about-lost trying = refl
about-lost checking = refl
about-lost starting = refl
about-lost listening = refl
about-lost stopped = refl

about-broken : (h : Phase) → about h broken ≡ about h live
about-broken woken = refl
about-broken trying = refl
about-broken checking = refl
about-broken starting = refl
about-broken listening = refl
about-broken stopped = refl

watched_le : (l : Link) → watched l ≤ 1
watched_le live = omega arith
watched_le broken = omega arith
watched_le lost = omega arith

one_more_lem : (l : Link) (n : ℕ) → one_more l n ≡ watched l + n
one_more_lem live n = omega arith
one_more_lem broken n = omega arith
one_more_lem lost n = omega arith

-- A step that replaces nothing and is no call.
counted :
    (s : Watched) (t : Loop)
    → Counted s
    → about t.handler t.link ≤ about s.loop.handler s.loop.link
    → Counted (record s { loop = t })
counted s t i few = record { old = omega (arith, i.old, few); replaced = i.replaced }

-- A connect that replaces the connection.
replacing :
    (s : Watched)
    → Counted s
    → s.loop.handler ≡ trying
    → (h : Phase) (l : Link) → about h l ≡ 0
    → Counted (record s {
      loop = record s.loop { handler = h; link = l };
      old = one_more s.loop.link s.old;
      replaced = one_more s.loop.link s.replaced;
    })
replacing s i at h l idle =
    let before : s.old + watched s.loop.link ≤ s.calls + s.retries =
      subst (λ x. s.old + about x s.loop.link ≤ s.calls + s.retries) at i.old in
    let more = one_more_lem s.loop.link s.replaced in
    record {
      old = omega (arith, before, idle, one_more_lem s.loop.link s.old);
      replaced =
          λ none_. let spared = i.replaced none_ in omega (arith, before, none_, spared, more);
    }

Step-Counted :
    (s : Watched) (t : Loop) (step : Step s.loop t)
    → Counted s
    → Counted (record {
      loop = t;
      old = replaces s.loop t step s.old;
      replaced = replaces s.loop t step s.replaced;
      calls = is_call s.loop t step s.calls;
      retries = retry s.loop t step s.retries;
    })
Step-Counted s t (breaks h) i = counted s t i (rw (h, about-broken s.loop.handler) (omega arith))
Step-Counted s t (signals h c l) i = counted s t i (omega arith)
Step-Counted s t (drops h c l) i = counted s t i (rw (about-lost s.loop.handler) (omega arith))
Step-Counted s t (ignores h c) i = counted s t i (rw (about-lost s.loop.handler) (omega arith))
Step-Counted s t (listens h) i = counted s t i (omega arith)
Step-Counted s t (stops h c) i = counted s t i (omega arith)
Step-Counted s t (proceeds h c) i = counted s t i (rw h (omega arith))
Step-Counted s t (gives_up h c) i = counted s t i (omega arith)
Step-Counted s t closes i = counted s t i (rw (about-lost s.loop.handler) (omega arith))
Step-Counted s t (accepts h c) i = counted s t i (omega arith)
Step-Counted s t (connects h c) i = replacing s i h checking live (omega arith)
Step-Counted s t (fails h c) i = replacing s i h s.loop.handler lost (about-lost s.loop.handler)
Step-Counted s t (rechecks h l) i = record {
  old = omega (arith, i.old, watched_le s.loop.link);
  replaced = λ none_. absurd (omega (arith, none_));
}
Step-Counted s t (reconnects c h) i = record {
  old = omega (arith, i.old, watched_le s.loop.link);
  replaced = λ none_. absurd (omega (arith, none_));
}

Move-Counted : (s t : Watched) → Move s t → Counted s → Counted t
Move-Counted s t (loops u step) i = Step-Counted s u step i
Move-Counted s t (old_signals o c h) i = record {
  old = omega (arith, i.old, o, watched_le s.loop.link);
  replaced = i.replaced;
}
Move-Counted s t (old_drops o c h) i = record {
  old = omega (arith, i.old, o);
  replaced = i.replaced;
}
Move-Counted s t (old_ignores o c) i = record {
  old = omega (arith, i.old, o);
  replaced = i.replaced;
}

Moves-Counted : (s t : Watched) → Moves s t → Counted s → Counted t
Moves-Counted s t here i = i
Moves-Counted s t (next {t = m} ms move) i = Move-Counted m t move (Moves-Counted s m ms i)

Move-DownIfClosed : (s t : Watched) → Move s t → DownIfClosed s.loop → DownIfClosed t.loop
Move-DownIfClosed s t (loops u step) i = Step-DownIfClosed s.loop u step i
Move-DownIfClosed s t (old_signals o c h) i = i
Move-DownIfClosed s t (old_drops o c h) i = i
Move-DownIfClosed s t (old_ignores o c) i = i

Moves-DownIfClosed : (s t : Watched) → Moves s t → DownIfClosed s.loop → DownIfClosed t.loop
Moves-DownIfClosed s t here i = i
Moves-DownIfClosed s t (next {t = m} ms move) i =
    Move-DownIfClosed m t move (Moves-DownIfClosed s m ms i)

-- After `New`, and however the goroutines and the broker move: of the connections that a reconnect
-- replaced, no more are still watched than calls of `Reconnect` have woken the handler and connects
-- have been repeated because their connection was closed at once; without such a call or repetition
-- no connection whose watcher had yet to signal has been replaced; and a client that is closed has no
-- connection in use, no reconnect under way reviving it.
pub old_watchers :
    (t : Watched)
    → Moves start t
    → (t.old ≤ t.calls + t.retries)
      × (t.calls + t.retries ≡ 0 → t.replaced ≡ 0)
      × (t.loop.closed ≡ true → t.loop.link ≢ live)
old_watchers t ms =
    let i = Moves-Counted start t ms (record { old = omega arith; replaced = λ h. refl }) in
    (
      omega (arith, i.old),
      i.replaced,
      DownIfClosed-link t.loop (Moves-DownIfClosed start t ms (inl refl)),
    )

-- A client that works and whose handler waits.
abbrev pub working : (old replaced calls : ℕ) → Watched
working old replaced calls = record {
  loop = record { handler = listening; link = live; closed = false };
  old = old;
  replaced = replaced;
  calls = calls;
  retries = 0;
}

pub Moves-trans : {s t u : Watched} → Moves s t → Moves t u → Moves s u
Moves-trans first here = first
Moves-trans first (next ms move) = next (Moves-trans first ms) move

abbrev at_phase : Phase → Loop
at_phase h = record { handler = h; link = live; closed = false }

-- A handler that has been woken replaces the working connection, which is watched in its turn.
woken_replaces :
    (n r c : ℕ)
    → Moves (record (working n r c) { loop = at_phase woken }) (working (suc n) (suc r) c)
woken_replaces n r c =
    next
      (next
        (next (next here (loops (at_phase trying) (proceeds refl refl)))
          (loops (at_phase checking) (connects refl refl)))
        (loops (at_phase starting) (accepts refl refl)))
      (loops (at_phase listening) (listens refl))

-- After one call of `Reconnect` on a client that works, there are runs with any number of
-- replacements of a working connection: those in which each replaced connection is closed when the
-- handler waits, and no connect fails.
pub replaced_for_ever : (k n r c : ℕ) → Moves (working n r c) (working (suc n) (suc k + r) (suc c))
replaced_for_ever zero n r c =
    let e : 1 + r ≡ suc r = omega arith in
    rw e (
      Moves-trans (next here (loops (at_phase woken) (reconnects refl refl)))
        (woken_replaces n r (suc c)))
replaced_for_ever (suc k) n r c =
    let e : suc (suc k) + r ≡ suc (suc k + r) = omega arith in
    rw e (
      Moves-trans (next (replaced_for_ever k n r c) (old_signals refl refl refl))
        (woken_replaces n (suc k + r) (suc c)))
