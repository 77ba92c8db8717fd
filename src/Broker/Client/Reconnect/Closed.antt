-- ===== src/Broker/Client/Reconnect/Closed.antt =====
-- The reconnect loop after `Close`.
use rabbitmq_kit_go.Prelude.{◌≡◌, ◌≢◌, ◌⊎◌, inl, inr, refl, true, false, arith}
use rabbitmq_kit_go.Broker.Client.Reconnect.{
  live, Loop, fresh, Step, breaks, signals, drops, ignores, listens, stops, proceeds, connects,
  fails, accepts, rechecks, gives_up, closes, reconnects, Reach, here, next,
}

-- Open, or without a connection that is in use.
abbrev pub DownIfClosed : Loop → Type 0
DownIfClosed s = (s.closed ≡ false) ⊎ (s.link ≢ live)

pub Step-DownIfClosed : (s t : Loop) → Step s t → DownIfClosed s → DownIfClosed t
Step-DownIfClosed s t (breaks h) i = inr (λ e. ground (arith, e))
Step-DownIfClosed s t (signals h c l) i = inl c
Step-DownIfClosed s t (drops h c l) i = inl c
Step-DownIfClosed s t (ignores h c) i = inr (λ e. ground (arith, e))
Step-DownIfClosed s t (listens h) i = i
Step-DownIfClosed s t (stops h c) i = i
Step-DownIfClosed s t (proceeds h c) i = i
Step-DownIfClosed s t (connects h c) i = inl c
Step-DownIfClosed s t (fails h c) i = inl c
Step-DownIfClosed s t (accepts h c) i = inl c
Step-DownIfClosed s t (rechecks h l) i = i
Step-DownIfClosed s t (gives_up h c) i = i
Step-DownIfClosed s t closes i = inr (λ e. ground (arith, e))
Step-DownIfClosed s t (reconnects c h) i = i

pub DownIfClosed-link : (s : Loop) → DownIfClosed s → s.closed ≡ true → s.link ≢ live
DownIfClosed-link s (inl h) closed = absurd (ground (arith, h, closed))
DownIfClosed-link s (inr h) closed = h

Reach-DownIfClosed : (s t : Loop) → Reach s t → DownIfClosed s → DownIfClosed t
Reach-DownIfClosed s t here i = i
Reach-DownIfClosed s t (next {t = m} r step) i =
    Step-DownIfClosed m t step (Reach-DownIfClosed s m r i)

-- However the goroutines interleave after `New`, a client that is closed has no connection in use:
-- no reconnect under way revives it.
closed_stays_down : (t : Loop) → Reach fresh t → t.closed ≡ true → t.link ≢ live
closed_stays_down t r = DownIfClosed-link t (Reach-DownIfClosed fresh t r (inl refl))
