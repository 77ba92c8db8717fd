-- ===== src/CircuitBreaker/Timing.antt =====
-- How long the breaker blocks, and how much it lets through.
use rabbitmq_kit_go.Prelude.{
  ℕ, ◌+◌, ◌-◌, ap, ◌∙◌, inl, inr, Bool-cases, ◌≤◌, ◌<◌, min, ◌≡◌, refl, true, false, List, [], ◌∷◌,
  map, length, arith, dec_lt, if◌then◌else◌, ltb,
}
use rabbitmq_kit_go.Prelude.Int.{pos, max_int, leb_int, sub_time}
use rabbitmq_kit_go.CircuitBreaker.{
  closed, open_, half_open, Config, CircuitBreaker, Call, allow, success, failure, manual_reset,
  allow_request, record_failure, record_success, step, run,
}

-- A call that cannot end the open state: an `AllowRequest` before the timeout is over, or a
-- result that a worker still reports.
abbrev pub IsEarly : CircuitBreaker → Call → Type 0
IsEarly cb (allow now later) =
    leb_int cb.config.reset_timeout (sub_time now cb.last_state_change_time) ≡ false
IsEarly cb (success now) = Unit
IsEarly cb (failure now later) = Unit
IsEarly cb (manual_reset now) = ⊥

abbrev pub AllEarly : CircuitBreaker → List Call → Type 0
AllEarly cb [] = Unit
AllEarly cb (c ∷ cs) = IsEarly cb c × AllEarly cb cs

-- What the test of the timeout reads.
record SameClock (a b : CircuitBreaker) : Type 0 where
  state : b.state ≡ open_
  since : b.last_state_change_time ≡ a.last_state_change_time
  timeout : b.config.reset_timeout ≡ a.config.reset_timeout

step-SameClock :
    (a b : CircuitBreaker) (c : Call) → SameClock a b → IsEarly a c → SameClock a (step c b)
unfolding step
step-SameClock a b (allow now later) s e = ground arith
step-SameClock a b (success now) s e = ground arith
step-SameClock a b (failure now later) s e = ground arith
step-SameClock a b (manual_reset now) s e = ground arith

run-SameClock :
    (a b : CircuitBreaker) (cs : List Call) → SameClock a b → AllEarly a cs → SameClock a (run cs b)
unfolding run
run-SameClock a b [] s e = s
run-SameClock a b (c ∷ cs) s e = run-SameClock a (step c b) cs (step-SameClock a b c s e.0) e.1

rejected_at :
    (a b : CircuitBreaker) (now later : ℕ)
    → SameClock a b
    → IsEarly a (allow now later)
    → allow_request now later b ≡ (false, b)
unfolding allow_request
rejected_at a b now later s e = ground arith

-- An open breaker rejects every request until its timeout is over, whatever requests and reported
-- results came in between, unless it is reset by hand; a rejected request changes nothing.
pub open_rejects :
    (cb : CircuitBreaker) (cs : List Call) (now later : ℕ)
    → cb.state ≡ open_
    → AllEarly cb cs
    → leb_int cb.config.reset_timeout (sub_time now cb.last_state_change_time) ≡ false
    → allow_request now later (run cs cb) ≡ (false, run cs cb)
open_rejects cb cs now later o e t =
    rejected_at cb (run cs cb) now later
      (run-SameClock cb cb cs (record { state = o; since = refl; timeout = refl }) e) t

abbrev pub failures_at : List (ℕ × ℕ) → List Call
failures_at = map (λ t. failure t.0 t.1)

fail_once :
    (cb : CircuitBreaker) (a m : ℕ) (t : ℕ × ℕ)
    → cb.state ≡ closed
    → cb.failures ≡ pos a
    → cb.config.max_failures ≡ pos m
    → a < m
    → m ≤ max_int
    → let cb' = record_failure t.0 t.1 cb in
      (cb'.state ≡ (if ltb (a + 1) m then closed else open_))
      × (cb'.failures ≡ pos (a + 1))
      × (cb'.config ≡ cb.config)
unfolding record_failure
fail_once cb a m t s f c h k = ground arith

fail_open :
    (cb : CircuitBreaker) (ts : List (ℕ × ℕ))
    → cb.state ≡ open_
    → (run (failures_at ts) cb).state ≡ open_
unfolding run step record_failure
fail_open cb [] s = s
fail_open cb (t ∷ ts) s = fail_open (record_failure t.0 t.1 cb) ts (ground arith)

-- A closed breaker with `a` failures counted opens exactly when further failures in a row bring
-- the count to `MaxFailures`.
pub trips_at_max :
    (cb : CircuitBreaker) (a m : ℕ) (ts : List (ℕ × ℕ))
    → cb.state ≡ closed
    → cb.failures ≡ pos a
    → cb.config.max_failures ≡ pos m
    → a < m
    → m ≤ max_int
    → (run (failures_at ts) cb).state ≡ (if ltb (a + length ts) m then closed else open_)
unfolding run step
trips_at_max cb a m [] s f c h k = ground arith
trips_at_max cb a m (t ∷ ts) s f c h k =
    let (state', failures', config') = fail_once cb a m t s f c h k in
    elim (Bool-cases (ltb (a + 1) m)) [
      | inl below ↦
          trips_at_max (record_failure t.0 t.1 cb) (a + 1) m ts (rw below at state') failures'
            (ap (λ (x : Config). x.max_failures) config' ∙ c) (ground arith) k
          ∙ ap (λ b. if b then closed else open_) (ground arith)
      | inr full ↦
          fail_open (record_failure t.0 t.1 cb) ts (rw full at state')
          ∙ ap (λ b. if b then closed else open_) {x = false} (ground arith)
    ]

-- The requests that are let through, of those made one after another.
pub admitted : List (ℕ × ℕ) → CircuitBreaker → ℕ
admitted [] cb = 0
admitted (t ∷ ts) cb =
    let (ok, cb') = allow_request t.0 t.1 cb in (if ok then 1 else 0) + admitted ts cb'

allow_counted :
    (cb : CircuitBreaker) (a m : ℕ) (t : ℕ × ℕ)
    → cb.state ≡ half_open
    → cb.half_open_requests ≡ pos a
    → cb.config.half_open_max_requests ≡ pos m
    → a < m
    → m ≤ max_int
    → allow_request t.0 t.1 cb ≡ (true, record cb { half_open_requests = pos (a + 1) })
unfolding allow_request
allow_counted cb a m t s r c h k = ground arith

allow_full :
    (cb : CircuitBreaker) (m : ℕ) (t : ℕ × ℕ)
    → cb.state ≡ half_open
    → cb.half_open_requests ≡ pos m
    → cb.config.half_open_max_requests ≡ pos m
    → allow_request t.0 t.1 cb ≡ (false, cb)
unfolding allow_request
allow_full cb m t s r c = ground arith

admitted_full :
    (cb : CircuitBreaker) (m : ℕ) (ts : List (ℕ × ℕ))
    → cb.state ≡ half_open
    → cb.half_open_requests ≡ pos m
    → cb.config.half_open_max_requests ≡ pos m
    → admitted ts cb ≡ 0
unfolding admitted
admitted_full cb m [] s r c = refl
admitted_full cb m (t ∷ ts) s r c =
    rw (allow_full cb m t s r c) (omega (arith, admitted_full cb m ts s r c))

admitted_half_open :
    (cb : CircuitBreaker) (a m : ℕ) (ts : List (ℕ × ℕ))
    → cb.state ≡ half_open
    → cb.half_open_requests ≡ pos a
    → cb.config.half_open_max_requests ≡ pos m
    → a ≤ m
    → m ≤ max_int
    → admitted ts cb ≡ min (m - a) (length ts)
unfolding admitted
admitted_half_open cb a m [] s r c h k = omega arith
admitted_half_open cb a m (t ∷ ts) s r c h k = elim (dec_lt a m) [
  | yes below ↦ rw (allow_counted cb a m t s r c below k) (
      omega (
        arith,
        admitted_half_open (record cb { half_open_requests = pos (a + 1) }) (a + 1) m ts s refl c
            (omega arith) k,
      ))
  | no full ↦
      let e : a ≡ m = omega arith in rw (admitted_full cb m (t ∷ ts) s (rw e at r) c) (omega arith)
]

allow_probe :
    (cb : CircuitBreaker) (t : ℕ × ℕ)
    → cb.state ≡ open_
    → leb_int cb.config.reset_timeout (sub_time t.0 cb.last_state_change_time) ≡ true
    → let (ok, cb') = allow_request t.0 t.1 cb in
      (ok ≡ true)
      × (cb'.state ≡ half_open)
      × (cb'.half_open_requests ≡ pos 0)
      × (cb'.config ≡ cb.config)
unfolding allow_request
allow_probe cb t s e = ground arith

-- The request that finds the timeout over is let through without being counted, so of the
-- requests made before any result is reported, `HalfOpenMaxRequests` + 1 are let through.
pub admitted_after_timeout :
    (cb : CircuitBreaker) (m : ℕ) (t : ℕ × ℕ) (ts : List (ℕ × ℕ))
    → cb.state ≡ open_
    → cb.config.half_open_max_requests ≡ pos m
    → m ≤ max_int
    → leb_int cb.config.reset_timeout (sub_time t.0 cb.last_state_change_time) ≡ true
    → admitted (t ∷ ts) cb ≡ min (m + 1) (length (t ∷ ts))
unfolding admitted
admitted_after_timeout cb m t ts s c h e =
    let (ok, state', requests', config') = allow_probe cb t s e in
    rw ok (
      omega (
        arith,
        admitted_half_open (allow_request t.0 t.1 cb).1 0 m ts state' requests'
            (ap (λ (x : Config). x.half_open_max_requests) config' ∙ c) (omega arith) h,
      ))

succeed_once :
    (cb : CircuitBreaker) (b m now : ℕ)
    → cb.state ≡ half_open
    → cb.successes ≡ pos b
    → cb.config.half_open_max_requests ≡ pos m
    → b < m
    → m ≤ max_int
    → let cb' = record_success now cb in
      (cb'.state ≡ (if ltb (b + 1) m then half_open else closed))
      × (ltb (b + 1) m ≡ true → cb'.successes ≡ pos (b + 1))
      × (cb'.config ≡ cb.config)
unfolding record_success
succeed_once cb b m now s f c h k = ground arith

succeed_closed :
    (cb : CircuitBreaker) (ts : List ℕ)
    → cb.state ≡ closed
    → (run (map success ts) cb).state ≡ closed
unfolding run step record_success
succeed_closed cb [] s = s
succeed_closed cb (t ∷ ts) s = succeed_closed (record_success t cb) ts (ground arith)

-- A half-open breaker with `b` successes counted closes exactly when further successes in a row
-- bring the count to `HalfOpenMaxRequests`.
pub recovers_at_max :
    (cb : CircuitBreaker) (b m : ℕ) (ts : List ℕ)
    → cb.state ≡ half_open
    → cb.successes ≡ pos b
    → cb.config.half_open_max_requests ≡ pos m
    → b < m
    → m ≤ max_int
    → (run (map success ts) cb).state ≡ (if ltb (b + length ts) m then half_open else closed)
unfolding run step
recovers_at_max cb b m [] s f c h k = ground arith
recovers_at_max cb b m (t ∷ ts) s f c h k =
    let (state', successes', config') = succeed_once cb b m t s f c h k in
    elim (Bool-cases (ltb (b + 1) m)) [
      | inl below ↦
          recovers_at_max (record_success t cb) (b + 1) m ts (rw below at state') (successes' below)
            (ap (λ (x : Config). x.half_open_max_requests) config' ∙ c) (ground arith) k
          ∙ ap (λ x. if x then half_open else closed) (ground arith)
      | inr full ↦
          succeed_closed (record_success t cb) ts (rw full at state')
          ∙ ap (λ x. if x then half_open else closed) {x = false} (ground arith)
    ]
